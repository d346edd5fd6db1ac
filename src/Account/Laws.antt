-- ===== src/Account/Laws.antt =====
-- Account isolation.
use agent_runner_codex.Prelude.{
  String, ◌≡◌, ap, ◌∙◌, sym, inl, inr, Option, some, ◌==◌, eq_iff, ◌⋯◌, if◌then◌else◌, arith,
  Bool-cases, false,
}
use text.Mathlib.TextLemmas.{append_cancel_left}
use agent_runner_codex.Prelude.Strings.{cons-⋯}
use agent_runner_codex.Account.{directory, user_home, home, is_absolute, join, join_injective}
use agent_runner_codex.Envelope.{HostContext, ok, >>=-eq-ok, ok_or, ok_or-eq-ok}

-- `codex1` is another name for `codex`.
abbrev pub canonical : String → String
canonical s = if s == "codex1" then "codex" else s

dotted_relative : (s : String) → is_absolute ("." ⋯ s) ≡ false
unfolding is_absolute
dotted_relative s = ap is_absolute (cons-⋯ "." "" s)

directory_lem : (s d : String) → directory s ≡ some d → d ≡ "." ⋯ canonical s
unfolding directory
directory_lem s d h = elim (Bool-cases (s == "codex")) [
  | inl p ↦ rw ((eq_iff s "codex").0 p) (ground (arith, p))
  | inr a ↦ elim (Bool-cases (s == "codex1")) [
    | inl p ↦ rw p (ground (arith, p))
    | inr b ↦ rw b (ground (arith, a, b))
  ]
]

home_lem :
    (v : Option String) (host : HostContext) (s p : String)
    → home v host s ≡ ok p
    → (u : String) × (user_home v host ≡ ok u) × (p ≡ join u ("." ⋯ canonical s))
unfolding home
home_lem v host s p h =
    let (d, named, rest) = >>=-eq-ok (ok_or (directory s) _) _ h in
    let (u, found, same) = >>=-eq-ok (user_home v host) _ rest in
    (u, found, ground (arith, directory_lem s d (ok_or-eq-ok _ _ named)))

-- Two identifiers that select the same directory are the same account: only `codex1` is another
-- name, for `codex`.
pub home_isolated :
    (v : Option String) (host : HostContext) (s t p : String)
    → home v host s ≡ ok p
    → home v host t ≡ ok p
    → canonical s ≡ canonical t
home_isolated v host s t p hs ht =
    let (u, found, same) = home_lem v host s p hs in
    let (u', found', same') = home_lem v host t p ht in
    let users : u ≡ u' = ground (arith, found, found') in
    append_cancel_left "." (canonical s) (canonical t) (
      join_injective u _ _ (dotted_relative (canonical s)) (dotted_relative (canonical t))
        (sym same ∙ same' ∙ ap (λ x. join x ("." ⋯ canonical t)) (sym users)))
