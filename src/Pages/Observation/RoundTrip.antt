-- ===== src/Pages/Observation/RoundTrip.antt =====
-- An issued observation token gives its cursor back, and only to its key and binding.
use agent_runner_codex.Prelude.{
  ◌-◌, ◌≤◌, ◌≡◌, refl, ap, sym, ◌∙◌, String, false, not, ◌||◌, ◌==◌, ◌⋯◌, Bytes, [], ◌∷◌, ◌++◌,
  some, arith, length, take, drop, length-append, length-drop, take-append-drop, eq_refl, eq_iff,
  strip_prefix, ltb,
}
use agent_runner_codex.Prelude.Slices.{take-append, drop-append}
use agent_runner_codex.Prelude.Strings.{strip_prefix-⋯, strip_prefix_sound}
use agent_runner_codex.Envelope.{ok, ok_injective, ok_or, >>=-eq-ok, ok_or-eq-ok, refuse_if-eq-ok}
use agent_runner_codex.Pages.Types.{Binding, Cursor, stale}
use agent_runner_codex.Pages.Observation.{
  Wire, ObservationCursor, any_differs, authenticate, binding_digest, compact, expand,
  observation_load, observation_prefix, observation_token,
}

-- What the code outside the repository promises: digests of 32 bytes, and encodings that decode.
pub record IsWire (wire : Wire) : Type 0 where
  pub digest_size : (bs : Bytes) → length (wire.sha256 bs) ≡ 32
  pub base64 : (bs : Bytes) → wire.decode_base64 (wire.encode_base64 bs) ≡ some bs
  pub cursor : (c : ObservationCursor) → wire.decode_cursor (wire.encode_cursor c) ≡ some c

any_differs_refl : (bs : Bytes) → any_differs bs bs ≡ false
unfolding any_differs
any_differs_refl [] = refl
any_differs_refl (b ∷ bs) = ground (arith, any_differs_refl bs)

any_differs_sound : (xs bs : Bytes) → length xs ≡ length bs → any_differs xs bs ≡ false → xs ≡ bs
unfolding any_differs
any_differs_sound [] [] e h = refl
any_differs_sound [] (b ∷ bs) e h = absurd (omega (arith, e))
any_differs_sound (a ∷ xs) [] e h = absurd (omega (arith, e))
any_differs_sound (a ∷ xs) (b ∷ bs) e h = ground (arith, any_differs_sound xs bs)

module _ (wire : Wire) (law : IsWire wire) (id : String) where
  authenticate_size : (key bs : Bytes) → length (authenticate wire key bs) ≡ 32
  unfolding authenticate
  authenticate_size key bs = law.digest_size _

  -- What a payload carries: a cursor with the binding's digest, within its file.
  abbrev pub IsCarried : Binding → Cursor → Bytes → ObservationCursor → Type 0
  IsCarried binding c text k =
      (wire.decode_cursor text ≡ some k)
      × (k.binding ≡ wire.sha256_hex (wire.encode_binding binding))
      × (k.offset ≤ k.stamp.len)
      × (c ≡ record {
        kind = k.kind;
        binding = binding;
        budgets = k.budgets;
        stamp = k.stamp;
        snapshot = k.snapshot;
        offset = k.offset;
        page = k.page;
        sequence = k.sequence;
        partial_record = k.partial_record;
      })

  payload : Cursor → Bytes
  payload c = wire.encode_cursor (compact wire c)

  -- A token that is issued for a cursor within its file loads to that cursor.
  pub observation_load-token :
      (key : Bytes) (c : Cursor)
      → c.offset ≤ c.stamp.len
      → observation_load wire id key (observation_token wire key c) c.binding ≡ ok c
  unfolding observation_load observation_token
  observation_load-token key c within =
      let bs = wire.encode_cursor (compact wire c) in
      let mac = authenticate wire key bs in
      let size = length-append bs mac in
      let mac_size = authenticate_size key bs in
      let taken : take (length (bs ++ mac) - 32) (bs ++ mac) ≡ bs =
        take-append bs mac _ (omega (arith, size, mac_size)) in
      let dropped : drop (length (bs ++ mac) - 32) (bs ++ mac) ≡ mac =
        drop-append bs mac _ (omega (arith, size, mac_size)) in
      let long : ltb (length (bs ++ mac)) 32 ≡ false = ground (arith, size, mac_size) in
      ground (
        arith,
        strip_prefix-⋯ observation_prefix (wire.encode_base64 (bs ++ mac)),
        law.base64 (bs ++ mac),
        eq_refl (wire.encode_base64 (bs ++ mac)),
        long,
        taken,
        dropped,
        any_differs_refl mac,
        law.cursor (compact wire c),
        eq_refl (binding_digest wire c.binding),
      )

  -- The tests of a load, one after the other.
  Checked : Bytes → String → Binding → Cursor → Bytes → ObservationCursor → Type 0
  Checked key value binding c bs k =
      (value ≡ observation_prefix ⋯ wire.encode_base64 bs)
      × ((32 ≤ length bs)
          × ((any_differs (drop (length bs - 32) bs)
                  (authenticate wire key (take (length bs - 32) bs))
                ≡ false)
              × IsCarried binding c (take (length bs - 32) bs) k))

  checked :
      (key : Bytes) (value : String) (binding : Binding) (c : Cursor)
      → observation_load wire id key value binding ≡ ok c
      → (bs : Bytes) × (k : ObservationCursor) × Checked key value binding c bs k
  unfolding Checked observation_load binding_digest
  checked key value binding c h =
      let (encoded, stripped, rest) =
        >>=-eq-ok (ok_or (strip_prefix value observation_prefix) (stale id)) _ h in
      let (bs, decoded, more) = >>=-eq-ok (ok_or (wire.decode_base64 encoded) (stale id)) _ rest in
      let (form, last) =
        refuse_if-eq-ok (ltb (length bs) 32 || not (wire.encode_base64 bs == encoded)) (stale id) _
          more in
      let (mac, end) =
        refuse_if-eq-ok
          (any_differs (drop (length bs - 32) bs)
            (authenticate wire key (take (length bs - 32) bs)))
          (stale id) _ last in
      let (k, read, final) =
        >>=-eq-ok (ok_or (wire.decode_cursor (take (length bs - 32) bs)) (stale id)) _ end in
      let digest = wire.sha256_hex (wire.encode_binding binding) in
      let (bound, done) =
        refuse_if-eq-ok (not (k.binding == digest) || ltb k.stamp.len k.offset) (stale id) _
          final in
      (
        bs,
        k,
        (
          strip_prefix_sound value observation_prefix encoded (ok_or-eq-ok _ _ stripped)
              ∙ ap (λ t. observation_prefix ⋯ t)
                  (sym ((eq_iff (wire.encode_base64 bs) encoded).0 (ground (arith, form)))),
          (
            ground (arith, form),
            (
              mac,
              (
                ok_or-eq-ok (wire.decode_cursor (take (length bs - 32) bs)) (stale id) read,
                (eq_iff k.binding digest).0 (ground (arith, bound)),
                ground (arith, bound),
                sym (ok_injective (expand wire binding k) c done),
              ),
            ),
          ),
        ),
      )

  -- A token that loads under a key is the one base64 spelling of a payload with its authentication
  -- under that key; the payload is a cursor's that carries the digest of the binding asked for and
  -- lies within its file, and what is loaded is that cursor, with the binding for its digest.
  pub observation_load_sound :
      (key : Bytes) (value : String) (binding : Binding) (c : Cursor)
      → observation_load wire id key value binding ≡ ok c
      → (text : Bytes) × (k : ObservationCursor) × (value
          ≡ observation_prefix ⋯ wire.encode_base64 (text ++ authenticate wire key text))
        × IsCarried binding c text k
  unfolding Checked
  observation_load_sound key value binding c h =
      let (bs, k, (form, (long, (mac, carried)))) = checked key value binding c h in
      let same : drop (length bs - 32) bs ≡ authenticate wire key (take (length bs - 32) bs) =
        any_differs_sound _ _
          (omega (
            arith,
            length-drop (length bs - 32) bs,
            authenticate_size key (take (length bs - 32) bs),
            long,
          ))
          mac in
      (
        take (length bs - 32) bs,
        k,
        form
            ∙ ap (λ x. observation_prefix ⋯ wire.encode_base64 x)
                (sym (take-append-drop (length bs - 32) bs)
                  ∙ ap (λ x. take (length bs - 32) bs ++ x) same),
        carried,
      )
