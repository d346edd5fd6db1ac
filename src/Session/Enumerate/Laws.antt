-- ===== src/Session/Enumerate/Laws.antt =====
-- The entries of an enumeration.
use agent_runner_codex.Prelude.{
  ℕ, ◌<◌, ◌⊎◌, ◌≡◌, refl, ap, sym, ◌∙◌, subst, inl, inr, String, Bool, true, false, ◌==◌, ◌||◌,
  unwrap_or, eq_iff, Bytes, List, [], ◌∷◌, Option, none, some, any, arith, Bool-cases, Option-cases,
  All, or_else, ltb, eqb, bytes,
}
use agent_runner_codex.Prelude.Sorting.{
  AllPairs, IsOrder, IsSorted, bytes_leb_total, bytes_leb_trans, sort_by, sort_by-All,
  sort_by-AllPairs, sort_by-IsSorted, text_leb,
}
use agent_runner_codex.Json.{Value, array, str, at, as_u64, as_str, get, get_field}
use agent_runner_codex.Envelope.{Result, ok, Result-cases, ok_injective, >>=-eq-ok, refuse_if-eq-ok}
use agent_runner_codex.Session.{RolloutFile, RolloutMeta, invalid, metadata}
use agent_runner_codex.Session.Rollout.{Calendar, timestamp_ms}
use agent_runner_codex.Session.Enumerate.{
  EnumerateParams, Population, Slice, dedup, enumerate, fingerprinted, listing_answer,
  max_page_size, page, counted, entry_leb, entry_of, is_older, name_leb, rank, population,
  with_entry, with_warning,
}

name_leb_total : (s t : Option String) → name_leb s t ≡ false → name_leb t s ≡ true
name_leb_total none t h = absurd (ground arith)
name_leb_total (some s) none h = refl
name_leb_total (some s) (some t) h = bytes_leb_total (bytes s) (bytes t) h

name_leb_trans :
    (s t u : Option String) → name_leb s t ≡ true → name_leb t u ≡ true → name_leb s u ≡ true
name_leb_trans none t u h k = refl
name_leb_trans (some s) none u h k = absurd (ground arith)
name_leb_trans (some s) (some t) none h k = absurd (ground arith)
name_leb_trans (some s) (some t) (some u) h k = bytes_leb_trans (bytes s) (bytes t) (bytes u) h k

-- Of two entries one comes no later than the other, and the order is transitive.
pub entry_leb-IsOrder : IsOrder entry_leb
unfolding entry_leb
entry_leb-IsOrder = record {
  total = λ a b h. ground (
    arith,
    name_leb_total (as_str (at a "provider_session_id")) (as_str (at b "provider_session_id")),
  );
  trans = λ a b c h k. ground (
    arith,
    name_leb_trans (as_str (at a "provider_session_id")) (as_str (at b "provider_session_id"))
        (as_str (at c "provider_session_id")),
  );
}

-- the identity that an entry bears
abbrev pub Bears : Value → String → Type 0
Bears entry id = at entry "provider_session_id" ≡ str id

-- Two entries bear different identities.
abbrev pub Apart : Value → Value → Type 0
Apart a b = (id : String) → Bears a id → Bears b id → ⊥

-- The first time is later than the second; any time is later than none.
abbrev pub IsLater : Option ℕ → Option ℕ → Type 0
IsLater (some m) (some n) = n < m
IsLater (some m) none = Unit
IsLater none _ = ⊥

-- An entry comes before another: its time is later, or it is the same and its identity, a text, comes
-- first by its bytes.
abbrev pub Precedes : Value → Value → Type 0
Precedes a b =
    IsLater (as_u64 (at a "updated_unix_ms")) (as_u64 (at b "updated_unix_ms"))
    ⊎ ((as_u64 (at a "updated_unix_ms") ≡ as_u64 (at b "updated_unix_ms"))
        × (s : String) × (t : String) × (Bears a s)
        × (Bears b t)
        × (text_leb s t ≡ true))

rank-IsLater : (m n : Option ℕ) → ltb (rank n) (rank m) ≡ true → IsLater m n
rank-IsLater none none h = absurd (ground arith)
rank-IsLater none (some n) h = absurd (ground arith)
rank-IsLater (some m) none h = tt
rank-IsLater (some m) (some n) h = ground arith

rank_injective : (m n : Option ℕ) → eqb (rank n) (rank m) ≡ true → m ≡ n
rank_injective none none h = refl
rank_injective none (some n) h = absurd (ground arith)
rank_injective (some m) none h = absurd (ground arith)
rank_injective (some m) (some n) h = let same : m ≡ n = ground arith in ap some same

entry_leb-Precedes :
    (a b : Value) (s t : String) → Bears a s → Bears b t → entry_leb a b ≡ true → Precedes a b
unfolding entry_leb
entry_leb-Precedes a b s t mine yours h =
    let m = as_u64 (at a "updated_unix_ms") in
    let n = as_u64 (at b "updated_unix_ms") in
    elim (Bool-cases (ltb (rank n) (rank m))) [
      | inl later ↦ inl (rank-IsLater m n later)
      | inr no_later ↦ elim (Bool-cases (eqb (rank n) (rank m))) [
        | inr earlier ↦ absurd (ground (arith, no_later, earlier))
        | inl same ↦
            let names : name_leb (as_str (at a "provider_session_id"))
                  (as_str (at b "provider_session_id"))
                ≡ true =
              ground (arith, no_later, same) in
            let ordered : text_leb s t ≡ true =
              sym (ap (λ v. name_leb (as_str v) (some t)) mine)
              ∙ sym (ap (λ v. name_leb (as_str (at a "provider_session_id")) (as_str v)) yours)
              ∙ names in
            inr (rank_injective m n same, s, t, mine, yours, ordered)
      ]
    ]

-- An entry of an enumeration: it bears an identity that is none of those seen before, and is not older
-- than what was asked for.
abbrev pub IsListed : EnumerateParams → List String → Value → Type 0
IsListed params identities entry =
    (id : String) × (Bears entry id)
    × (any (λ seen. seen == id) identities ≡ false)
    × (is_older params.since_unix_ms (as_u64 (at entry "updated_unix_ms")) ≡ false)

-- What entries of an enumeration satisfy: each by itself, and each two.
abbrev pub IsFit : EnumerateParams → List String → List Value → Type 0
IsFit params identities entries =
    All (IsListed params identities) entries × AllPairs entry_leb Apart entries

all_after :
    (params : EnumerateParams) (a : Value) (s : String) (entries : List Value)
    → Bears a s
    → All (λ b. entry_leb a b ≡ true) entries
    → All (IsListed params []) entries
    → All (Precedes a) entries
all_after params a s [] mine below listed = tt
all_after params a s (b ∷ entries) mine (h, below) ((t, yours, new, recent), listed) =
    (entry_leb-Precedes a b s t mine yours h, all_after params a s entries mine below listed)

-- Sorted entries are in order, each two.
sorted_entries :
    (params : EnumerateParams) (entries : List Value)
    → IsSorted entry_leb entries
    → All (IsListed params []) entries
    → AllPairs entry_leb Precedes entries
sorted_entries params [] sorted listed = tt
sorted_entries params (a ∷ entries) (below, sorted) ((s, mine, new, recent), listed) =
    (all_after params a s entries mine below listed, sorted_entries params entries sorted listed)

str_injective : (s t : String) → str s ≡ str t → s ≡ t
str_injective s t e = ground arith

-- what is listed after an identity was seen
after_seen :
    (params : EnumerateParams) (seen : String) (identities : List String) (entries : List Value)
    → All (IsListed params (seen ∷ identities)) entries
    → All (IsListed params identities) entries
      × ((entry : Value) → Bears entry seen → All (Apart entry) entries)
after_seen params seen identities [] all = (tt, λ entry b. tt)
after_seen params seen identities (e ∷ entries) ((id, own, new, recent), all) =
    let (rest, apart) = after_seen params seen identities entries all in
    (
      ((id, own, ground (arith, new), recent), rest),
      λ entry b. (
        λ other mine yours.
            let same : seen ≡ id = str_injective seen id (sym b ∙ mine ∙ sym yours ∙ own) in
            let found : (seen == id) ≡ true = (eq_iff seen id).1 same in ground (arith, found),
        apart entry b,
      ),
    )

module _ (request_id : String) (calendar : Calendar) (parse_json : Bytes → Option Value)
    (file_time : RolloutFile → Option (Option ℕ)) where
  entry_of-Bears :
      (params : EnumerateParams) (path : String) (meta : RolloutMeta) (updated turns : Option ℕ)
      → Bears (entry_of params path meta updated turns) meta.id
        × (as_u64 (at (entry_of params path meta updated turns) "updated_unix_ms") ≡ updated)
  unfolding entry_of at get get_field
  entry_of-Bears params path meta none turns = (refl, refl)
  entry_of-Bears params path meta (some n) turns = (refl, refl)

  -- with the entry, unless it is skipped
  add_entry :
      (params : EnumerateParams) (identities : List String) (entry : Value) (id : String)
      (skip warn : Bool) (warning : String) (rest : Population)
      → Bears entry id
      → any (λ seen. seen == id) identities ≡ false
      → (skip ≡ false → is_older params.since_unix_ms (as_u64 (at entry "updated_unix_ms")) ≡ false)
      → IsFit params (id ∷ identities) rest.entries
      → IsFit params identities (with_warning warn warning (with_entry skip entry rest)).entries
  add_entry params identities entry id true warn warning rest own new recent (all, pairs) =
      ((after_seen params id identities rest.entries all).0, pairs)
  add_entry params identities entry id false warn warning rest own new recent (all, pairs) =
      let (listed, apart) = after_seen params id identities rest.entries all in
      (((id, own, new, recent refl), listed), (apart entry own, pairs))

  population-IsListed :
      (params : EnumerateParams) (identities : List String) (files : List RolloutFile)
      (p : Population)
      → population request_id calendar parse_json file_time params identities files ≡ ok p
      → IsFit params identities p.entries
  unfolding population
  population-IsListed params identities [] p h =
      let same : [] ≡ p.entries = ground arith in subst (IsFit params identities) same (tt, tt)
  population-IsListed params identities (file ∷ files) p h =
      elim (Result-cases (metadata request_id parse_json (timestamp_ms calendar) file)) [
        | inr (e, failed) ↦
            elim (Result-cases
              (population request_id calendar parse_json file_time params identities files)) [
                | inr (f, stopped) ↦ absurd (ground (arith, failed, stopped))
                | inl (rest, went_on) ↦
                    let same : rest.entries ≡ p.entries = ground (arith, failed, went_on) in
                    subst (IsFit params identities) same
                      (population-IsListed params identities files rest went_on)
              ]
        | inl (meta, parsed) ↦
            let others =
              population request_id calendar parse_json file_time params (meta.id ∷ identities)
                files in
            elim (Bool-cases (any (λ id. id == meta.id) identities)) [
              | inl seen ↦ absurd (ground (arith, parsed, seen))
              | inr new ↦ elim (Option-cases (file_time file)) [
                | inl lost ↦ absurd (ground (arith, parsed, new, lost))
                | inr (modified, timed) ↦
                    elim (Result-cases (
                      counted request_id calendar parse_json file_time params.include_turn_count
                        file meta.id)) [
                          | inr (f, stopped) ↦ absurd (ground (arith, parsed, new, timed, stopped))
                          | inl (turns, read) ↦ elim (Result-cases others) [
                            | inr (f, stopped) ↦
                                absurd (ground (arith, parsed, new, timed, read, stopped))
                            | inl (rest, went_on) ↦
                                let updated = or_else modified meta.created_unix_ms in
                                let entry = entry_of params file.path meta updated turns.0 in
                                let (own, dated) =
                                  entry_of-Bears params file.path meta updated turns.0 in
                                let skip = is_older params.since_unix_ms updated in
                                let warned =
                                  with_warning turns.1
                                    "A Codex rollout has an incomplete final record"
                                    (with_entry skip entry rest) in
                                let same : warned.entries ≡ p.entries =
                                  ground (arith, parsed, new, timed, read, went_on) in
                                subst (IsFit params identities) same (
                                  add_entry params identities entry meta.id skip turns.1
                                    "A Codex rollout has an incomplete final record" rest own new
                                    (λ kept. ap (is_older params.since_unix_ms) dated ∙ kept)
                                    (population-IsListed params (meta.id ∷ identities) files rest
                                      went_on))
                          ]
                        ]
              ]
            ]
      ]

  -- The answer of `enumerate`: a page of entries in order, which are fit, each two apart.
  abbrev pub IsPage : EnumerateParams → Value → Type 0
  IsPage params answer =
      (entries : List Value) × (fingerprint : String) × (slice : Slice) × (AllPairs entry_leb
        Precedes entries)
      × (IsFit params [] entries)
      × (page request_id fingerprint entries (unwrap_or params.limit 100) params.cursor ≡ ok slice)
      × (at answer "sessions" ≡ array slice.sessions)

  module _ (to_vec : Value → Bytes) (sha256_hex : Bytes → String) where
    -- An enumeration that succeeds answers with a page of a list of entries in order: of each two the
    -- first has the later time, or the same and the identity that comes first; no two entries bear one
    -- identity, and none is older than asked for.
    pub enumerate-IsPage :
        (params : EnumerateParams) (home : Result String)
        (listing : String → Result (List RolloutFile)) (answer : Value)
        → enumerate request_id calendar parse_json file_time to_vec sha256_hex params home listing
          ≡ ok answer
        → IsPage params answer
    unfolding enumerate at get get_field
    enumerate-IsPage params home listing answer h =
        let limit = unwrap_or params.limit 100 in
        let (limited, h1) =
          refuse_if-eq-ok (eqb limit 0 || ltb max_page_size limit)
            (invalid request_id "Enumeration limit must be between 1 and 1000") _ h in
        let (root, at_home, h2) = >>=-eq-ok home _ h1 in
        let (files, walked, h3) = >>=-eq-ok (listing root) _ h2 in
        let (found, scanned, h4) =
          >>=-eq-ok (population request_id calendar parse_json file_time params [] files) _ h3 in
        let entries = sort_by entry_leb found.entries in
        let warnings = dedup (sort_by text_leb found.warnings) in
        let print = sha256_hex (to_vec (fingerprinted params root entries warnings)) in
        let (slice, paged, h5) =
          >>=-eq-ok (page request_id print entries limit params.cursor) _ h4 in
        let (listed, apart) = population-IsListed params [] files found scanned in
        (
          entries,
          print,
          slice,
          sorted_entries params entries (sort_by-IsSorted entry_leb entry_leb-IsOrder found.entries)
              (sort_by-All entry_leb (IsListed params []) found.entries listed),
          (
            sort_by-All entry_leb (IsListed params []) found.entries listed,
            sort_by-AllPairs entry_leb Apart (λ a b apart id mine yours. apart id yours mine)
                found.entries apart,
          ),
          paged,
          sym (ap (λ v. at v "sessions") (ok_injective (listing_answer slice warnings) answer h5)),
        )
