-- ===== src/Pages/Read/Response.antt =====
-- What a page that is returned keeps to.
use agent_runner_codex.Prelude.{
  ℕ, ◌+◌, ◌≤◌, ◌≡◌, refl, subst, inl, inr, String, length, arith, Bool-cases,
}
use agent_runner_codex.Json.{Value}
use agent_runner_codex.Envelope.{RequestEnvelope, Result, ok, err, ◌>>=◌, ◌>>◌, success_response}
use agent_runner_codex.Pages.Types.{Cursor, Params}
use agent_runner_codex.Pages.Params.{params}
use agent_runner_codex.Pages.Project.{Printer, fits}
use agent_runner_codex.Pages.Storage.{PageStorage, storage_persist}
use agent_runner_codex.Pages.Store.Charges.{Limits}
use agent_runner_codex.Pages.Read.{
  Outside, Page, Surroundings, final_result, publish, read_turns_with_limits, build_page,
  open_request, locate_file, start_state, require_generation,
}

-- The property of a result that succeeds.
AllOk {ℓ} : {A : Type ℓ} → (A → Type 0) → Result A → Type 0
AllOk P (ok a) = P a
AllOk P (err e) = Unit

all_bind :
    {A B : Type 0} (P : B → Type 0) (m : Result A) (f : A → Result B)
    → ((a : A) → m ≡ ok a → AllOk P (f a))
    → AllOk P (m >>= f)
unfolding AllOk
all_bind P (ok a) f h = h a refl
all_bind P (err e) f h = tt

all_then :
    {B : Type 0} (P : B → Type 0) (m : Result (Unit {0})) (k : Result B)
    → AllOk P k
    → AllOk P (m >> k)
unfolding AllOk
all_then P (ok a) k h = h
all_then P (err e) k h = tt

all-eq-ok : {A : Type 0} (P : A → Type 0) (m : Result A) {a : A} → AllOk P m → m ≡ ok a → P a
unfolding AllOk
all-eq-ok P (ok b) h e = subst P (ground arith) h
all-eq-ok P (err b) h e = cc

abbrev response_length : Printer → String → Value → ℕ
response_length printer request_id value =
    length (printer.to_vec (success_response printer.contract request_id value))

module _ (outside : Outside) (request : RequestEnvelope) where
  -- The response of a page, with its line end, within the budget of the request.
  pub IsWithin : Value × PageStorage → Type 0
  IsWithin (value, storage) =
      (p : Params) × (params outside.decode_params request ≡ ok p)
      × (response_length outside.printer request.request_id value + 1 ≤ p.max_response_bytes)

  publish_all :
      (p : Params) (state : Cursor) (page : Page)
      → params outside.decode_params request ≡ ok p
      → AllOk IsWithin (publish outside request.request_id p state page)
  unfolding publish AllOk IsWithin fits
  publish_all p state page accepted =
      elim (Bool-cases (
        fits outside.printer request.request_id
          (final_result outside request.request_id p state page).0 p)) [
            | inl fit ↦ rw fit (
                all_bind IsWithin
                  (storage_persist outside.platform outside.wire request.request_id page.storage
                    (final_result outside request.request_id p state page).1)
                  _ (λ storage saved. (p, accepted, ground (arith, fit))))
            | inr big ↦ rw big tt
          ]

  all_read :
      (limits : Limits) (here : Surroundings)
      → AllOk IsWithin (read_turns_with_limits outside request limits here)
  unfolding read_turns_with_limits
  all_read limits here = all_bind IsWithin (params outside.decode_params request) _ (λ p accepted.
      all_bind IsWithin (open_request outside request here p limits) _ (λ opened _a.
        all_bind IsWithin (locate_file outside request here p opened.old) _ (λ located _b.
          all_bind IsWithin
            (start_state outside request.request_id p opened.binding opened.old located.file.stamp
              located.metadata_end)
            _
            (λ state _c.
              all_bind IsWithin (build_page outside request here p opened located state) _
                (λ page _d.
                  all_then IsWithin
                    (require_generation request.request_id located.file.stamp here.later)
                    (publish outside request.request_id p state page)
                    (publish_all p state page accepted))))))

  -- A page that is returned is within the response budget of the request that was decoded, whatever
  -- it found outside.
  pub read_turns-IsWithin :
      (limits : Limits) (here : Surroundings) (r : Value × PageStorage)
      → read_turns_with_limits outside request limits here ≡ ok r
      → IsWithin r
  read_turns-IsWithin limits here r h =
      all-eq-ok IsWithin (read_turns_with_limits outside request limits here) (all_read limits here)
        h
