-- ===== src/Cli/Args/Accepted.antt =====
-- The command lines that are accepted.
use gpustat4cluster.Base.{
  ℕ, false, ◌&&◌, ◌≡◌, refl, Option, List, ◌∷◌, ok, arith, Result-cases, inl, inr,
}
use gpustat4cluster.Base.Bytes.{bytes_eq}
use gpustat4cluster.Base.Text.{Text, text}
use gpustat4cluster.Cli.Args.{
  CliOptions, flag, default_options, flag_step, value_step, parse_from, parse_args,
}

module _ (parse_interval : Text → Option ℕ) where
  -- Options that are accepted ask neither for colour and none, nor for JSON that is refreshed.
  pub parse_args_compatible :
      (args : List Text) (opts : CliOptions)
      → parse_args parse_interval args ≡ ok opts
      → ((opts.force_color && opts.no_color) ≡ false) × ((opts.watch && opts.json) ≡ false)
  unfolding parse_args
  parse_args_compatible args opts h =
      elim (Result-cases (parse_from parse_interval flag default_options args)) [
        | inl (o, e) ↦ (ground arith, ground arith)
        | inr (x, e) ↦ absurd (ground arith)
      ]

  -- `-a` stands for `-c -u -p`, wherever it stands.
  pub parse_from_all :
      (opts : CliOptions) (rest : List Text)
      → parse_from parse_interval flag opts (text "-a" ∷ rest)
        ≡ parse_from parse_interval flag opts (text "-c" ∷ text "-u" ∷ text "-p" ∷ rest)
  unfolding parse_from value_step flag_step bytes_eq
  parse_from_all opts rest = refl
