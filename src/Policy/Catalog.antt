-- ===== src/Policy/Catalog.antt =====
-- What a configuration that is validated satisfies: its files, its catalog and its prompt.
pub mod Entries
use agent_runner_codex.Prelude.{
  ◌≡◌, ◌≤◌, refl, Bytes, some, Option-cases, length, is_empty, is_some, ltb, inl, inr, String, Bool,
  true, false, not, ◌||◌, ◌&&◌, List, [], ◌∷◌, arith, Bool-cases,
}
use agent_runner_codex.Json.{Value}
use agent_runner_codex.Envelope.{ok, ok_or, ok_or-eq-ok, >>=-eq-ok}
use agent_runner_codex.Policy.{invalid}
use agent_runner_codex.Account.{is_absolute}
use agent_runner_codex.Policy.Config.{
  Disk, RuntimeConfig, check_paths, check_slugs, dependencies, check_prompt, read_catalog,
  supported, validate_for_mediation,
}
use agent_runner_codex.Policy.Catalog.Entries.{IsDefined, check_slugs-IsDefined}

module _ (disk : Disk) where
  -- A path that is that of a file, and absolute.
  abbrev pub IsThere : String → Type 0
  IsThere path = (is_absolute path ≡ true) × (disk.is_file path ≡ true)

  -- Codex and the system prompt are there; unless a mediation's bridge stands for them, so are the
  -- others.
  abbrev pub HasPaths : RuntimeConfig → Bool → Type 0
  HasPaths c true = IsThere c.codex_bin × IsThere c.system_prompt_file
  HasPaths c false =
      IsThere c.codex_bin
      × IsThere c.system_prompt_file
      × IsThere c.bun_bin
      × IsThere c.bash_mcp_path
      × IsThere c.agent_bash_bin
      × IsThere c.agent_runner_bin

  -- The system prompt that is read: UTF-8, and 1 byte to 1 MiB of it.
  abbrev pub HasPrompt : RuntimeConfig → Type 0
  HasPrompt c =
      (prompt : Bytes) × (text : String) × (disk.read_file_bounded c.system_prompt_file 1048576
        ≡ some prompt)
      × (disk.from_utf8 prompt ≡ some text)
      × (1 ≤ length prompt)
      × (length prompt ≤ 1048576)

  check_paths_used :
      (mediated : Bool) (name path : String) (bridged : Bool)
      (paths : List (String × String × Bool)) (done : Unit {0})
      → check_paths disk mediated ((name, path, bridged) ∷ paths) ≡ ok done
      → (mediated && bridged) ≡ false
      → IsThere path × (check_paths disk mediated paths ≡ ok done)
  unfolding check_paths
  check_paths_used mediated name path bridged paths done h used =
      elim (Bool-cases (not (is_absolute path) || not (disk.is_file path))) [
        | inl missing ↦ absurd (ground (arith, used, missing))
        | inr there ↦ ((ground (arith, there), ground (arith, there)), ground (arith, used, there))
      ]

  check_paths_bridged :
      (name path : String) (paths : List (String × String × Bool)) (done : Unit {0})
      → check_paths disk true ((name, path, true) ∷ paths) ≡ ok done
      → check_paths disk true paths ≡ ok done
  unfolding check_paths
  check_paths_bridged name path paths done h = h

  dependencies-HasPaths :
      (c : RuntimeConfig) (mediated : Bool) (done : Unit {0})
      → check_paths disk mediated (dependencies c) ≡ ok done
      → HasPaths c mediated
  dependencies-HasPaths c true done h =
      let (codex, h1) = check_paths_used true _ c.codex_bin false _ done h refl in
      let h2 = check_paths_bridged _ c.bun_bin _ done h1 in
      let h3 = check_paths_bridged _ c.bash_mcp_path _ done h2 in
      let (prompt, h4) = check_paths_used true _ c.system_prompt_file false _ done h3 refl in
      (codex, prompt)
  dependencies-HasPaths c false done h =
      let (codex, h1) = check_paths_used false _ c.codex_bin false _ done h refl in
      let (bun, h2) = check_paths_used false _ c.bun_bin true _ done h1 refl in
      let (mcp, h3) = check_paths_used false _ c.bash_mcp_path true _ done h2 refl in
      let (prompt, h4) = check_paths_used false _ c.system_prompt_file false _ done h3 refl in
      let (bash, h5) = check_paths_used false _ c.agent_bash_bin true _ done h4 refl in
      let (runner, h6) = check_paths_used false _ c.agent_runner_bin true _ done h5 refl in
      (codex, prompt, bun, mcp, bash, runner)

  some_byte : (bs : Bytes) → is_empty bs ≡ false → 1 ≤ length bs
  some_byte [] h = absurd (ground arith)
  some_byte (b ∷ bs) h = omega arith

  check_prompt-HasPrompt :
      (c : RuntimeConfig) (done : Unit {0}) → check_prompt disk c ≡ ok done → HasPrompt c
  unfolding check_prompt
  check_prompt-HasPrompt c done h =
      let (prompt, read, h1) =
        >>=-eq-ok
          (ok_or (disk.read_file_bounded c.system_prompt_file 1048576)
            (invalid "system_prompt_unreadable" "Cannot read the bounded configured system prompt"))
          _ h in
      elim (Bool-cases
        (is_empty prompt || ltb 1048576 (length prompt) || not (is_some (disk.from_utf8 prompt)))) [
          | inl bad ↦ absurd (ground (arith, h1, bad))
          | inr good ↦ elim (Option-cases (disk.from_utf8 prompt)) [
            | inl garbled ↦ absurd (ground (arith, good, garbled))
            | inr (text, decoded) ↦ (
              prompt,
              text,
              ok_or-eq-ok (disk.read_file_bounded c.system_prompt_file 1048576) _ read,
              decoded,
              some_byte prompt (ground (arith, good)),
              ground (arith, good),
            )
          ]
        ]

  -- A configuration that passes the validation: Codex and the system prompt are absolute paths of
  -- files, and without a mediation so are its four other paths; its catalog has exactly one entry for
  -- each of the four models, and that turns off every override of the native tools; and its system
  -- prompt is UTF-8 of 1 byte to 1 MiB.
  pub validate_for_mediation-IsDefined :
      (c : RuntimeConfig) (mediated : Bool)
      → validate_for_mediation disk c mediated ≡ ok tt
      → (HasPaths c mediated)
        × (entries : List Value) × (read_catalog disk c ≡ ok entries)
        × (IsDefined entries "gpt-6-astra")
        × (IsDefined entries "gpt-6-luna")
        × (IsDefined entries "gpt-5.6-terra")
        × (IsDefined entries "gpt-6.1-sol")
        × (HasPrompt c)
  unfolding validate_for_mediation
  validate_for_mediation-IsDefined c mediated h =
      let (one, paths, h1) = >>=-eq-ok (check_paths disk mediated (dependencies c)) _ h in
      let (entries, read, h2) = >>=-eq-ok (read_catalog disk c) _ h1 in
      let (two, slugs, h3) = >>=-eq-ok (check_slugs entries supported) _ h2 in
      let (first, (second, (third, (fourth, _e)))) =
        check_slugs-IsDefined entries supported two slugs in
      (
        dependencies-HasPaths c mediated one paths,
        entries,
        read,
        first,
        second,
        third,
        fourth,
        check_prompt-HasPrompt c tt h3,
      )
