-- ===== src/Tests/Codec.antt =====
-- An encoding of cursors as one line of bytes, to run the store on concrete cursors: numbers in
-- unary, texts by their code points, fields one after the other.
use Prim.Native.Char.{Char, char, code, IsScalar}
use Prim.Native.Nat.{Ordering, compare}
use text.Mathlib.TextEquality.{Char-path}
use agent_runner_codex.Prelude.{
  ℕ, zero, suc, ◌≤◌, ◌≡◌, refl, ap, ◌∙◌, ◌⊎◌, inl, inr, String, Bytes, [], ◌∷◌, ◌++◌, Option, none,
  some, arith, append_assoc, length, length-append,
}
use agent_runner_codex.Pages.Types.{Binding, Budgets, Cursor, PartialRecord, Stamp}
use agent_runner_codex.Pages.Observation.{ObservationCursor}
use agent_runner_codex.Pages.Pack.Frames.{HasNoNewline, HasNoNewline-append}

scalar_on :
    (n : ℕ) (a b c : Ordering)
    → compare n 55296 ≡ a
    → compare 57343 n ≡ b
    → compare n 1114112 ≡ c
    → IsScalar n ⊎ ¬ (IsScalar n)
scalar_on n Ordering.lt b c p q r = inl (rw p tt)
scalar_on n Ordering.eq Ordering.lt Ordering.lt p q r = inl (rw (p, q, r) tt)
scalar_on n Ordering.gt Ordering.lt Ordering.lt p q r = inl (rw (p, q, r) tt)
scalar_on n Ordering.eq Ordering.lt Ordering.eq p q r = inr (λ h. rw (p, q, r) at h)
scalar_on n Ordering.eq Ordering.lt Ordering.gt p q r = inr (λ h. rw (p, q, r) at h)
scalar_on n Ordering.gt Ordering.lt Ordering.eq p q r = inr (λ h. rw (p, q, r) at h)
scalar_on n Ordering.gt Ordering.lt Ordering.gt p q r = inr (λ h. rw (p, q, r) at h)
scalar_on n Ordering.eq Ordering.eq c p q r = inr (λ h. rw (p, q) at h)
scalar_on n Ordering.eq Ordering.gt c p q r = inr (λ h. rw (p, q) at h)
scalar_on n Ordering.gt Ordering.eq c p q r = inr (λ h. rw (p, q) at h)
scalar_on n Ordering.gt Ordering.gt c p q r = inr (λ h. rw (p, q) at h)

char_on : (n : ℕ) → IsScalar n ⊎ ¬ (IsScalar n) → Option Char
char_on n (inl p) = some (char n p)
char_on n (inr q) = none

char_on-scalar :
    (n : ℕ) (p : IsScalar n) (d : IsScalar n ⊎ ¬ (IsScalar n)) → char_on n d ≡ some (char n p)
unfolding char_on
char_on-scalar n p (inl q) = ap some (Char-path (char n q) (char n p) refl)
char_on-scalar n p (inr q) = absurd (q p)

pub to_char : ℕ → Option Char
unfolding scalar_on char_on
to_char n = char_on n (scalar_on n _ _ _ refl refl refl)

pub to_char-code : (c : Char) → to_char (code c) ≡ some c
unfolding to_char
to_char-code (char n p) = char_on-scalar n p (scalar_on n _ _ _ refl refl refl)

pub record Codec (A : Type 0) : Type 0 where
  pub enc : A → Bytes
  pub dec : Bytes → Option (A × Bytes)
  pub dec-enc : (a : A) (rest : Bytes) → dec (enc a ++ rest) ≡ some (a, rest)
  pub clean : (a : A) → HasNoNewline (enc a)
  pub some_byte : (a : A) → 1 ≤ length (enc a)

abbrev enc_nat : ℕ → Bytes
enc_nat zero = b'b' ∷ []
enc_nat (suc n) = b'a' ∷ enc_nat n

abbrev next : Option (ℕ × Bytes) → Option (ℕ × Bytes)
next none = none
next (some r) = some (suc r.0, r.1)

abbrev dec_nat : Bytes → Option (ℕ × Bytes)
dec_nat [] = none
dec_nat (b ∷ bs) = elim (compare b b'a') [ Ordering.eq ↦ next (dec_nat bs) | _ ↦ some (0, bs) ]

pub dec_nat-enc : (n : ℕ) (rest : Bytes) → dec_nat (enc_nat n ++ rest) ≡ some (n, rest)
dec_nat-enc zero rest = refl
dec_nat-enc (suc n) rest = ap next (dec_nat-enc n rest)

pub nat_clean : (n : ℕ) → HasNoNewline (enc_nat n)
nat_clean zero = (omega arith, tt)
nat_clean (suc n) = (omega arith, nat_clean n)

pub nat_some : (n : ℕ) → 1 ≤ length (enc_nat n)
nat_some zero = omega arith
nat_some (suc n) = omega arith

abbrev nat : Codec ℕ
nat = record {
  enc = enc_nat;
  dec = dec_nat;
  dec-enc = dec_nat-enc;
  clean = nat_clean;
  some_byte = nat_some;
}

module _ {A B : Type 0} (f : A → B) (g : B → Option A) (back : (a : A) → g (f a) ≡ some a) where
  abbrev mapped : Option (B × Bytes) → Option (A × Bytes)
  mapped none = none
  mapped (some (b, rest)) = elim (g b) [ none ↦ none | some a ↦ some (a, rest) ]

  pub mapped_lem :
      (o : Option (B × Bytes)) (a : A) (rest : Bytes)
      → o ≡ some (f a, rest)
      → mapped o ≡ some (a, rest)
  mapped_lem none a rest h = ground arith
  mapped_lem (some (b, r)) a rest h = ground (arith, back a)

  abbrev via : Codec B → Codec A
  via k = record {
    enc = λ a. k.enc (f a);
    dec = λ bs. mapped (k.dec bs);
    dec-enc = λ a rest. mapped_lem _ a rest (k.dec-enc (f a) rest);
    clean = λ a. k.clean (f a);
    some_byte = λ a. k.some_byte (f a);
  }

module _ {A B : Type 0} (k : Codec A) (l : Codec B) where
  abbrev second : Option (A × Bytes) → Option ((A × B) × Bytes)
  second none = none
  second (some (a, bs)) = elim (l.dec bs) [ none ↦ none | some r ↦ some ((a, r.0), r.1) ]

  pub second_lem :
      (a : A) (b : B) (rest : Bytes)
      → second (k.dec ((k.enc a ++ l.enc b) ++ rest)) ≡ some ((a, b), rest)
  second_lem a b rest =
      ap (λ bs. second (k.dec bs)) (append_assoc (k.enc a) (l.enc b) rest)
      ∙ ground (arith, k.dec-enc a (l.enc b ++ rest), l.dec-enc b rest)

  abbrev pair : Codec (A × B)
  pair = record {
    enc = λ (a, b). k.enc a ++ l.enc b;
    dec = λ bs. second (k.dec bs);
    dec-enc = λ (a, b) rest. second_lem a b rest;
    clean = λ (a, b). HasNoNewline-append (k.enc a) (l.enc b) (k.clean a) (l.clean b);
    some_byte = λ (a, b). omega (arith, length-append (k.enc a) (l.enc b), k.some_byte a);
  }

abbrev char_codec : Codec Char
char_codec = via code to_char to_char-code nat

abbrev chars : String → Bytes
chars String.[] = []
chars (String.◌∷◌ c s) = char_codec.enc c ++ chars s

abbrev count : String → ℕ
count String.[] = 0
count (String.◌∷◌ c s) = suc (count s)

abbrev dec_rest : Char → Option (String × Bytes) → Option (String × Bytes)
dec_rest c none = none
dec_rest c (some (s, bs)) = some (String.◌∷◌ c s, bs)

abbrev charred : Option (Char × Bytes) → (Bytes → Option (String × Bytes)) → Option (String × Bytes)
charred none more = none
charred (some (c, bs)) more = dec_rest c (more bs)

abbrev dec_chars : ℕ → Bytes → Option (String × Bytes)
dec_chars zero bs = some (String.[], bs)
dec_chars (suc n) bs = charred (char_codec.dec bs) (λ more. dec_chars n more)

dec_chars-chars :
    (s : String) (rest : Bytes) → dec_chars (count s) (chars s ++ rest) ≡ some (s, rest)
dec_chars-chars String.[] rest = refl
dec_chars-chars (String.◌∷◌ c s) rest = rw (append_assoc (char_codec.enc c) (chars s) rest) (
    ap (λ o. charred o (λ more. dec_chars (count s) more)) (char_codec.dec-enc c (chars s ++ rest))
    ∙ ap (dec_rest c) (dec_chars-chars s rest))

pub chars_clean : (s : String) → HasNoNewline (chars s)
chars_clean String.[] = tt
chars_clean (String.◌∷◌ c s) =
    HasNoNewline-append (char_codec.enc c) (chars s) (char_codec.clean c) (chars_clean s)

abbrev counted_out : Option (ℕ × Bytes) → Option (String × Bytes)
counted_out none = none
counted_out (some (n, bs)) = dec_chars n bs

pub text_lem :
    (s : String) (rest : Bytes)
    → counted_out (dec_nat ((enc_nat (count s) ++ chars s) ++ rest)) ≡ some (s, rest)
text_lem s rest =
    ap (λ bs. counted_out (dec_nat bs)) (append_assoc (enc_nat (count s)) (chars s) rest)
    ∙ ap counted_out (dec_nat-enc (count s) (chars s ++ rest))
    ∙ dec_chars-chars s rest

abbrev str : Codec String
str = record {
  enc = λ s. enc_nat (count s) ++ chars s;
  dec = λ bs. counted_out (dec_nat bs);
  dec-enc = text_lem;
  clean =
      λ s. HasNoNewline-append (enc_nat (count s)) (chars s) (nat_clean (count s)) (chars_clean s);
  some_byte = λ s. omega (arith, length-append (enc_nat (count s)) (chars s), nat_some (count s));
}

-- an optional value: a number for its presence, and the value or the one that stands for it
module _ {A : Type 0} (d : A) where
  abbrev present : Option A → ℕ × A
  present none = (0, d)
  present (some a) = (1, a)

  abbrev absent_or : ℕ × A → Option (Option A)
  absent_or (zero, a) = some none
  absent_or (suc n, a) = some (some a)

  pub present_lem : (o : Option A) → absent_or (present o) ≡ some o
  present_lem none = refl
  present_lem (some a) = refl

  abbrev option : Codec A → Codec (Option A)
  option k = via present absent_or present_lem (pair nat k)

abbrev partial : Codec PartialRecord
partial =
    via (λ r. (r.start, r.sha256)) (λ (a, b). some (record { start = a; sha256 = b })) (λ _. refl)
      (pair nat str)

abbrev stamp : Codec Stamp
stamp =
    via (λ s. (s.device, (s.inode, (s.len, s.modified))))
      (λ (a, (b, (c, e))). some (record { device = a; inode = b; len = c; modified = e }))
      (λ _. refl) (pair nat (pair nat (pair nat nat)))

abbrev budgets : Codec Budgets
budgets =
    via (λ s. (s.turns, (s.response, (s.source, s.inline))))
      (λ (a, (b, (c, e))). some (record { turns = a; response = b; source = c; inline = e }))
      (λ _. refl) (pair nat (pair nat (pair nat nat)))

abbrev binding : Codec Binding
binding =
    via (λ s. (s.provider, (s.account, (s.settings, (s.session, (s.projection, s.nonce))))))
      (λ (a, (b, (c, (e, (f, g))))). some (record {
        provider = a;
        account = b;
        settings = c;
        session = e;
        projection = f;
        nonce = g;
      }))
      (λ _. refl) (pair str (pair str (pair str (pair str (pair str (option "" str))))))

-- The cursor's encoding; its page number comes first.
unfoldable pub cursor : Codec Cursor
cursor =
    via
      (λ s. (
        s.page,
        (
          s.kind,
          (
            s.binding,
            (s.budgets, (s.stamp, (s.snapshot, (s.offset, (s.sequence, s.partial_record))))),
          ),
        ),
      ))
      (λ (pg, (k, (b, (u, (st, (sn, (o, (sq, pr)))))))). some (record {
        kind = k;
        binding = b;
        budgets = u;
        stamp = st;
        snapshot = sn;
        offset = o;
        page = pg;
        sequence = sq;
        partial_record = pr;
      }))
      (λ _. refl)
      (pair nat (
        pair str (
          pair binding (
            pair budgets (
              pair stamp (
                pair str
                  (pair nat (pair nat (option (record { start = 0; sha256 = "" }) partial)))))))))

-- The encoding of what an observation token carries.
unfoldable pub observation_cursor : Codec ObservationCursor
observation_cursor =
    via
      (λ s. (
        s.binding,
        (
          s.kind,
          (
            s.budgets,
            (s.stamp, (s.snapshot, (s.offset, (s.page, (s.sequence, s.partial_record))))),
          ),
        ),
      ))
      (λ (b, (k, (u, (st, (sn, (o, (pg, (sq, pr)))))))). some (record {
        binding = b;
        kind = k;
        budgets = u;
        stamp = st;
        snapshot = sn;
        offset = o;
        page = pg;
        sequence = sq;
        partial_record = pr;
      }))
      (λ _. refl)
      (pair str (
        pair str (
          pair budgets (
            pair stamp (
              pair str (
                pair nat
                  (pair nat (pair nat (option (record { start = 0; sha256 = "" }) partial)))))))))

abbrev put : ℕ → String → String
put zero s = String.◌∷◌ "b" s
put (suc n) s = String.◌∷◌ "a" (put n s)

-- bytes as a text, in unary
abbrev pub spelled : Bytes → String
spelled [] = String.[]
spelled (n ∷ ns) = put n (spelled ns)

abbrev bump : Option Bytes → Option Bytes
bump none = none
bump (some []) = none
bump (some (n ∷ ns)) = some (suc n ∷ ns)

abbrev zero_first : Option Bytes → Option Bytes
zero_first none = none
zero_first (some ns) = some (0 ∷ ns)

abbrev pub unspelled : String → Option Bytes
unspelled String.[] = some []
unspelled (String.◌∷◌ c s) = elim (compare (code c) b'a') [
  | Ordering.eq ↦ bump (unspelled s)
  | _ ↦ zero_first (unspelled s)
]

unspelled-put :
    (n : ℕ) (s : String) (ns : Bytes) → unspelled s ≡ some ns → unspelled (put n s) ≡ some (n ∷ ns)
unspelled-put zero s ns h = ap zero_first h
unspelled-put (suc n) s ns h = ap bump (unspelled-put n s ns h)

pub unspelled-spelled : (bs : Bytes) → unspelled (spelled bs) ≡ some bs
unspelled-spelled [] = refl
unspelled-spelled (n ∷ ns) = unspelled-put n (spelled ns) ns (unspelled-spelled ns)
