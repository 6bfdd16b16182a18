-- ===== src/AstSearch/Traversal.antt =====
-- What a traversal of lib/AST/ASTVisitor.cpp records, by the nesting of functions and expressions.
