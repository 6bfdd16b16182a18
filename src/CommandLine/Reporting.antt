-- ===== src/CommandLine/Reporting.antt =====
-- The reporters and filters that the options choose.
use mull.Base.{List, [], ◌∷◌, map, ◌≡◌, ◌≢◌, ◌⊎◌, inl, inr, refl, ap}
use mull.CommandLine.{
  Options, ReporterKind, ide_reporter, reporter_of, each_reporter, or_ide, reporters_of,
}

each_reporter-map :
    (o : Options) (ks : List ReporterKind) → each_reporter o ks ≡ map (reporter_of o) ks
unfolding each_reporter
each_reporter-map o [] = refl
each_reporter-map o (k ∷ ks) = ap (λ rs. reporter_of o k ∷ rs) (each_reporter-map o ks)

-- There is always a reporter: those asked for, in their order, or one for the terminal.
pub reporters_of-map :
    (o : Options)
    → ((o.reporters ≡ []) × (reporters_of o ≡ ide_reporter o.ide_reporter_show_killed ∷ []))
      ⊎ ((o.reporters ≢ []) × (reporters_of o ≡ map (reporter_of o) o.reporters))
unfolding reporters_of each_reporter
reporters_of-map o = by_kinds o.reporters
  where
    by_kinds :
        (ks : List ReporterKind)
        → ((ks ≡ [])
            × (or_ide o (each_reporter o ks) ≡ ide_reporter o.ide_reporter_show_killed ∷ []))
          ⊎ ((ks ≢ []) × (or_ide o (each_reporter o ks) ≡ map (reporter_of o) ks))
    by_kinds [] = inl (refl, refl)
    by_kinds (k ∷ ks) = inr (λ e. cc (e), ap (λ rs. reporter_of o k ∷ rs) (each_reporter-map o ks))
