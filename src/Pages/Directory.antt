-- ===== src/Pages/Directory.antt =====
-- The state directory of src/session_turn_pages.rs, as a listing of names and what they hold.
-- A cursor's and a prefix's name hold a SHA-256 digest, a pack's the first two of its digits: the
-- four kinds of names are never the same text.
use agent_runner_codex.Prelude.{
  ◌≡◌, refl, String, Bool, true, false, ◌==◌, eq_iff, Bytes, List, [], ◌∷◌, Option, none, some,
  if◌then◌else◌, arith,
}

-- `{digest}.json`, `cursors-{bucket}.pack`, `record-{digest}.part`, and any other name
pub data Name : Type 0 where
  legacy pack part other : String → Name

-- a regular file, or anything else that a directory can hold
pub data Node : Type 0 where
  file : Bytes → Node
  special : Node

abbrev pub Directory : Type 0
Directory = List (Name × Node)

unfoldable pub name_eq : Name → Name → Bool
name_eq (legacy a) (legacy b) = a == b
name_eq (pack a) (pack b) = a == b
name_eq (part a) (part b) = a == b
name_eq (other a) (other b) = a == b
name_eq _ _ = false

unfoldable pub find : Name → Directory → Option Node
unfolding name_eq
find n [] = none
find n ((m, x) ∷ d) = if name_eq m n then some x else find n d

-- create the file or replace what it holds
unfoldable pub write : Name → Bytes → Directory → Directory
unfolding name_eq
write n bs [] = (n, file bs) ∷ []
write n bs ((m, x) ∷ d) = if name_eq m n then (m, file bs) ∷ d else (m, x) ∷ write n bs d

pub name_eq_sound : (a b : Name) → name_eq a b ≡ true → a ≡ b
unfolding name_eq
name_eq_sound (legacy a) (legacy b) h = ground (arith, eq_iff a b)
name_eq_sound (pack a) (pack b) h = ground (arith, eq_iff a b)
name_eq_sound (part a) (part b) h = ground (arith, eq_iff a b)
name_eq_sound (other a) (other b) h = ground (arith, eq_iff a b)
name_eq_sound a b h = ground arith

pub name_eq_refl : (a : Name) → name_eq a a ≡ true
unfolding name_eq
name_eq_refl (legacy a) = ground (arith, eq_iff a a)
name_eq_refl (pack a) = ground (arith, eq_iff a a)
name_eq_refl (part a) = ground (arith, eq_iff a a)
name_eq_refl (other a) = ground (arith, eq_iff a a)

abbrev pub file_if : Bool → Bytes → Option Node → Option Node
file_if b bs o = if b then some (file bs) else o

pub find-write :
    (n m : Name) (bs : Bytes) (d : Directory)
    → find m (write n bs d) ≡ file_if (name_eq n m) bs (find m d)
unfolding find write
find-write n m bs [] = refl
find-write n m bs ((k, x) ∷ d) = ground (
  arith,
  find-write n m bs d,
  name_eq_sound k n,
  name_eq_sound k m,
  name_eq_sound n m,
  name_eq_refl n,
  name_eq_refl m,
)
