-- ===== src/Tests/Store.antt =====
-- The store on two cursors, with a digest that tells first pages from later ones.
use agent_runner_codex.Prelude.{
  ℕ, ◌≡◌, refl, String, Bytes, [], ◌∷◌, ◌++◌, Option, none, some, length, ltb, true, arith,
  if◌then◌else◌, all, bytes, is_lower_hex, str_len, ap, bytes_eq, take, Bool-cases, inl, inr, eqb,
  ◌⊎◌, ◌≤◌,
}
use agent_runner_codex.Envelope.{ok, err}
use agent_runner_codex.Pages.Types.{Cursor, stale}
use agent_runner_codex.Pages.Directory.{Directory, Name, file, find, write}
use agent_runner_codex.Pages.Pack.{
  last_match, scan_from, read_frame, ends_newline, frame_of, pack_of,
}
use agent_runner_codex.Pages.Pack.Fuel.{scan_from-IsPack}
use agent_runner_codex.Pages.Pack.Sound.{IsPack}
use agent_runner_codex.Pages.Pack.Scan.{IsHexDigest}
use agent_runner_codex.Pages.Store.{Platform, load, persist, stored, token, pack_path}
use agent_runner_codex.Pages.Store.Charges.{Limits, acquired, Admission, reserve_growth}
use agent_runner_codex.Pages.Store.Usage.{IsBelowMax, usage}
use agent_runner_codex.Pages.Store.Stored.{IsPlatform, encoded-IsBody}
use agent_runner_codex.Pages.Store.RoundTrip.{
  load-persist, persist_keeps, persist_within, find-write_ne,
}
use agent_runner_codex.Pages.Store.Recovery.{IsTorn, torn_loads, torn_completes}
use agent_runner_codex.Tests.Codec.{cursor}

abbrev pages : Bytes → String
pages [] = "0000000000000000000000000000000000000000000000000000000000000000"
pages (b ∷ bs) =
    if eqb b b'a'
    then "000000000000000000000000000000000000000000000000000000000000000a"
    else "0000000000000000000000000000000000000000000000000000000000000000"

abbrev first_of : Option (Cursor × Bytes) → Option Cursor
first_of none = none
first_of (some r) = some r.0

abbrev platform : Platform
unfolding cursor
platform = record {
  sha256_hex = pages;
  encode = λ c. cursor.enc c;
  decode = λ bs. first_of (cursor.dec (bs ++ []));
  read_bounded = λ bs n. if ltb n (length bs) then none else some bs;
}

pages_size : (bs : Bytes) → str_len (pages bs) ≡ 64
unfolding bytes
pages_size [] = refl
pages_size (b ∷ bs) = elim (Bool-cases (eqb b b'a')) [ inl h ↦ rw h | inr h ↦ rw h ]

pages_hex : (bs : Bytes) → all is_lower_hex (bytes (pages bs)) ≡ true
unfolding bytes
pages_hex [] = refl
pages_hex (b ∷ bs) = elim (Bool-cases (eqb b b'a')) [ inl h ↦ rw h | inr h ↦ rw h ]

pages-IsHexDigest : IsHexDigest pages
pages-IsHexDigest = record { size = pages_size; hex = pages_hex }

platform-IsPlatform : IsPlatform platform
unfolding platform pages-IsHexDigest
platform-IsPlatform = record {
  digest = pages-IsHexDigest;
  decoded = λ c. ap first_of (cursor.dec-enc c []);
  one_line = λ c. cursor.clean c;
  some_byte = λ c. cursor.some_byte c;
  read_all = λ bs n h. ground arith;
}

abbrev at_page : ℕ → Cursor
at_page n = record {
  kind = "";
  binding = record {
    provider = "";
    account = "";
    settings = "";
    session = "";
    projection = "";
    nonce = none;
  };
  budgets = record { turns = 1; response = 2; source = 1; inline = 0 };
  stamp = record { device = 1; inode = 2; len = 5; modified = 0 };
  snapshot = "";
  offset = 4;
  page = n;
  sequence = n;
  partial_record = none;
}

abbrev limits : Limits
limits = (65536, 3)

limits-IsBelowMax : IsBelowMax limits
limits-IsBelowMax = record { bytes = omega arith; objects = omega arith }

-- a directory and an admission after a persist that succeeds
abbrev saved : ℕ → Directory → Directory × Admission
unfolding persist
saved n d = elim (persist platform "r" d acquired limits (at_page n)) [
  | ok r ↦ r
  | err e ↦ (d, acquired)
]

abbrev one_page : Directory × Admission
unfolding saved
one_page = saved 0 []

abbrev two_pages : Directory × Admission
unfolding one_page
two_pages = saved 1 one_page.0

persist_one : persist platform "r" [] acquired limits (at_page 0) ≡ ok one_page
unfolding one_page persist platform cursor find reserve_growth frame_of bytes
persist_one = refl

persist_two : persist platform "r" one_page.0 acquired limits (at_page 1) ≡ ok two_pages
unfolding two_pages persist platform cursor find reserve_growth frame_of bytes write pack_path
    scan_from read_frame ends_newline bytes_eq
persist_two = refl

load-persist_example : load platform "r" one_page.0 (token platform (at_page 0)) ≡ ok (at_page 0)
load-persist_example =
    load-persist platform platform-IsPlatform "r" [] acquired limits (at_page 0) one_page.0
      one_page.1 limits-IsBelowMax (omega arith) persist_one

load_one : load platform "r" one_page.0 (token platform (at_page 0)) ≡ ok (at_page 0)
load_one =
    load-persist platform platform-IsPlatform "r" [] acquired limits (at_page 0) one_page.0
      one_page.1 limits-IsBelowMax (omega arith) persist_one

persist_keeps_example : load platform "r" two_pages.0 (token platform (at_page 0)) ≡ ok (at_page 0)
persist_keeps_example =
    persist_keeps platform platform-IsPlatform "r" one_page.0 acquired limits (at_page 1)
      two_pages.0 two_pages.1 (token platform (at_page 0)) (at_page 0) limits-IsBelowMax
      (omega arith) persist_two load_one

persist_within_example :
    (two_pages.0 ≡ one_page.0) ⊎ ((usage two_pages.0 ≤ limits.0) × (length two_pages.0 ≤ limits.1))
persist_within_example =
    persist_within platform platform-IsPlatform "r" one_page.0 acquired limits (at_page 1)
      two_pages.0 two_pages.1 limits-IsBelowMax persist_two

-- the first page's pack after a process died in the write of the second page's frame
abbrev cut_frame : Bytes
unfolding frame_of bytes platform
cut_frame =
    frame_of pages (platform.encode (at_page 0))
    ++ take 40 (frame_of pages (platform.encode (at_page 1)))

abbrev shared_pack : Name
unfolding pack_path
shared_pack = pack_path "00"

abbrev cut_off : Directory
unfolding cut_frame one_page shared_pack
cut_off = write shared_pack cut_frame one_page.0

cut_off-IsTorn : IsTorn platform one_page.0 cut_off (platform.encode (at_page 1))
unfolding cut_off cut_frame one_page shared_pack persist platform cursor find reserve_growth
    frame_of bytes write pack_path scan_from read_frame ends_newline bytes_eq pack_of
cut_off-IsTorn = record {
  bodies = platform.encode (at_page 0) ∷ [];
  cut = 40;
  valid = (encoded-IsBody platform platform-IsPlatform "r" (at_page 0) (omega arith), tt);
  new = encoded-IsBody platform platform-IsPlatform "r" (at_page 1) (omega arith);
  part = omega arith;
  before = inr ([], refl, tt, omega arith, omega arith);
  after = refl;
  others = λ n h. find-write_ne shared_pack n cut_frame one_page.0 h;
  small = omega arith;
}

torn_loads_example :
    load platform "r" cut_off (token platform (at_page 0))
    ≡ load platform "r" one_page.0 (token platform (at_page 0))
torn_loads_example =
    torn_loads platform platform-IsPlatform "r" one_page.0 cut_off (platform.encode (at_page 1))
      cut_off-IsTorn (token platform (at_page 0))

abbrev recovered : Directory × Admission
unfolding saved cut_off
recovered = saved 1 cut_off

persist-cut_off : persist platform "r" cut_off acquired limits (at_page 1) ≡ ok recovered
unfolding recovered cut_off cut_frame shared_pack one_page persist platform cursor find
    reserve_growth frame_of bytes write pack_path scan_from read_frame ends_newline bytes_eq
persist-cut_off = refl

not_stored : stored platform "r" one_page.0 (pages (platform.encode (at_page 1))) ≡ err (stale "r")
unfolding stored one_page persist platform cursor find reserve_growth frame_of bytes write pack_path
    scan_from read_frame ends_newline bytes_eq
not_stored = refl

torn_completes_example :
    find shared_pack recovered.0
    ≡ some (
        file (
          pack_of pages (platform.encode (at_page 0) ∷ [])
          ++ frame_of pages (platform.encode (at_page 1))))
unfolding cut_off-IsTorn shared_pack platform cursor pack_path
torn_completes_example =
    torn_completes platform platform-IsPlatform "r" one_page.0 cut_off (at_page 1) cut_off-IsTorn
      acquired limits recovered.0 recovered.1 not_stored limits-IsBelowMax persist-cut_off

scan_from-IsPack_example :
    ((k : IsPack pages (b'x' ∷ [])) × (scan_from pages 3 "00" (b'x' ∷ []) 0 none
        ≡ some (last_match pages "00" k.bodies none, length (pack_of pages k.bodies))))
    ⊎ ((IsPack pages (b'x' ∷ []) → ⊥) × (scan_from pages 3 "00" (b'x' ∷ []) 0 none ≡ none))
unfolding platform
scan_from-IsPack_example =
    scan_from-IsPack pages platform-IsPlatform.digest 3 "00" (b'x' ∷ []) (omega arith)
