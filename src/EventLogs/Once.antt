-- ===== src/EventLogs/Once.antt =====
-- How often a request is logged, and with which body.
use boar_pack.Base.{
  ℕ, String, ◌+◌, ◌≡◌, refl, sym, append-nil, Bool, true, false, not, ◌&&◌, ◌||◌, Option, none,
  some, List, [], ◌∷◌, ◌++◌, text_eq, length, length-append, leb, ltb, if◌then◌else◌, member, arith,
  Bool-cases, inl, inr,
}
use text.Mathlib.TextEquality.{eq_iff}
use boar_pack.Dict.{get, set, has, get-set, has-get}
use boar_pack.EventLogs.Requests.{
  Payload, Request, Log, SkipOptions, skip_all, unset, skip_body, mask, masked, subject_of, Entry,
  level_of, entry_of, logged_status, logged_level, audit_unless, audit, Setting, Outcome, Handler,
  intercept, finish, Passage, stopped, reaches, passed, serve,
}

-- What stands in a field of a body that may be missing.
abbrev pub field : String → Option Payload → Option String
field f none = none
field f (some p) = get f p

abbrev pub starred : Option String → Option String
starred none = none
starred (some v) = some "*****"

get-mask :
    (f : String) (fs : List String) (p : Payload)
    → get f (mask fs p) ≡ (if member f fs then starred (get f p) else get f p)
get-mask f [] p = refl
get-mask f (g ∷ fs) p = elim (Bool-cases (has g p)) [
  | inl there ↦ rw there (
      ground (
        arith,
        there,
        eq_iff g f,
        has-get g p,
        has-get f p,
        get-mask f fs (set g "*****" p),
        get-set g f "*****" p,
      ))
  | inr missing ↦ rw missing (ground (arith, missing, eq_iff g f, has-get g p, get-mask f fs p))
]

field-masked :
    (f : String) (fs : List String) (body : Option Payload)
    → field f (masked (skip_body fs) body)
      ≡ (if member f fs then starred (field f body) else field f body)
field-masked f fs none = ground arith
field-masked f fs (some p) = get-mask f fs p

-- The rows of a request that was not logged yet.
abbrev pub finish_rows : Setting → String → String → ℕ → Request → List Log
finish_rows at method entity status r =
    if leb 200 status && ltb status 300
    then []
    else record {
      subject = subject_of unset r;
      entry = entry_of at method entity status (level_of status);
    }
      ∷ []

abbrev pub intercept_row : Setting → Handler → SkipOptions → Outcome → Request → Log
intercept_row at h options outcome r = record {
  subject = subject_of options r;
  entry = entry_of at h.name h.controller (logged_status outcome) (logged_level outcome);
}

audit-fresh :
    (entry : Entry) (options : SkipOptions) (r : Request) (store : List Log)
    → r.handled ≡ false
    → audit entry options r store ≡ (
      record r { handled = true },
      store ++ record { subject = subject_of options r; entry = entry } ∷ [],
    )
unfolding audit
audit-fresh entry options r store h = rw h refl

finish-fresh :
    (at : Setting) (method entity : String) (status : ℕ) (r : Request) (store : List Log)
    → r.handled ≡ false
    → (finish at method entity status r store).1 ≡ store ++ finish_rows at method entity status r
unfolding finish audit
finish-fresh at method entity status r store h =
    rw h (elim (Bool-cases (leb 200 status && ltb status 300)) [
      | inl fine ↦ rw fine (sym (append-nil store))
      | inr bad ↦ rw bad refl
    ])

abbrev pub rows :
    Setting → Handler → SkipOptions → Passage → String → String → ℕ → Request → List Log
rows at h options stopped method entity status r = finish_rows at method entity status r
rows at h skip_all (reaches outcome) method entity status r = finish_rows at method entity status r
rows at h unset (reaches outcome) method entity status r = intercept_row at h unset outcome r ∷ []
rows at h (skip_body fs) (reaches outcome) method entity status r =
    intercept_row at h (skip_body fs) outcome r ∷ []

finish-audit_unless :
    (at : Setting) (h : Handler) (options : SkipOptions) (outcome : Outcome)
    (method entity : String) (status : ℕ) (r : Request) (store : List Log)
    → r.handled ≡ false
    → let entry = entry_of at h.name h.controller (logged_status outcome) (logged_level outcome) in
      let marked = audit_unless options entry r store in
      (finish at method entity status marked.0 marked.1).1
      ≡ store ++ rows at h options (reaches outcome) method entity status r
unfolding finish
finish-audit_unless at h skip_all outcome method entity status r store fresh =
    finish-fresh at method entity status r store fresh
finish-audit_unless at h unset outcome method entity status r store fresh =
    rw
      (audit-fresh (entry_of at h.name h.controller (logged_status outcome) (logged_level outcome))
        unset r store fresh)
      refl
finish-audit_unless at h (skip_body fs) outcome method entity status r store fresh =
    rw
      (audit-fresh (entry_of at h.name h.controller (logged_status outcome) (logged_level outcome))
        (skip_body fs) r store fresh)
      refl

rows-serve :
    (at : Setting) (h : Handler) (passage : Passage) (method entity : String) (status : ℕ)
    (r : Request) (store : List Log)
    → r.handled ≡ false
    → (serve at h passage method entity status r store).1
      ≡ store ++ rows at h h.options passage method entity status r
unfolding serve passed finish intercept
rows-serve at h stopped method entity status r store fresh =
    finish-fresh at method entity status r store fresh
rows-serve at h (reaches outcome) method entity status r store fresh =
    finish-audit_unless at h h.options outcome method entity status r store fresh

-- The interceptor logs the request.
abbrev pub is_intercepted : SkipOptions → Passage → Bool
is_intercepted options stopped = false
is_intercepted skip_all (reaches outcome) = false
is_intercepted unset (reaches outcome) = true
is_intercepted (skip_body fs) (reaches outcome) = true

abbrev pub is_success : ℕ → Bool
is_success status = leb 200 status && ltb status 300

length-rows :
    (at : Setting) (h : Handler) (options : SkipOptions) (passage : Passage)
    (method entity : String) (status : ℕ) (r : Request)
    → length (rows at h options passage method entity status r)
      ≡ (if is_intercepted options passage || not (is_success status) then 1 else 0)
length-rows at h options stopped method entity status r = ground arith
length-rows at h skip_all (reaches outcome) method entity status r = ground arith
length-rows at h unset (reaches outcome) method entity status r = refl
length-rows at h (skip_body fs) (reaches outcome) method entity status r = refl

-- A request that was not logged yet is logged once if the interceptor logs it or its response is no
-- success, and otherwise not at all.
pub serve_once :
    (at : Setting) (h : Handler) (passage : Passage) (method entity : String) (status : ℕ)
    (r : Request) (store : List Log)
    → r.handled ≡ false
    → length (serve at h passage method entity status r store).1
      ≡ length store
        + (if is_intercepted h.options passage || not (is_success status) then 1 else 0)
serve_once at h passage method entity status r store fresh =
    rw (rows-serve at h passage method entity status r store fresh) omega (
      arith,
      length-append store (rows at h h.options passage method entity status r),
      length-rows at h h.options passage method entity status r,
    )

-- The body's field in the last row.
abbrev pub logged_field : String → List Log → Option String
logged_field f [] = none
logged_field f (x ∷ []) = field f x.subject.payload
logged_field f (x ∷ y ∷ ys) = logged_field f (y ∷ ys)

logged_field-last :
    (f : String) (xs : List Log) (x : Log)
    → logged_field f (xs ++ x ∷ []) ≡ field f x.subject.payload
logged_field-last f [] x = refl
logged_field-last f (y ∷ []) x = refl
logged_field-last f (y ∷ z ∷ ys) x = logged_field-last f (z ∷ ys) x

-- In the row of a request that reaches a handler which names fields of the body, those fields are
-- stars where the body has them, and the others are as they were sent.
pub serve_masks :
    (at : Setting) (h : Handler) (fs : List String) (outcome : Outcome) (method entity : String)
    (status : ℕ) (r : Request) (store : List Log) (f : String)
    → r.handled ≡ false
    → h.options ≡ skip_body fs
    → logged_field f (serve at h (reaches outcome) method entity status r store).1
      ≡ (if member f fs then starred (field f r.body) else field f r.body)
serve_masks at h fs outcome method entity status r store f fresh options =
    rw
      (
        rows-serve at h (reaches outcome) method entity status r store fresh,
        options,
        logged_field-last f store (intercept_row at h (skip_body fs) outcome r),
      )
      (field-masked f fs r.body)

-- When a guard stops a request that was not logged yet, and the response is no success, its row has
-- all of the body as it was sent, whatever fields the handler names.
pub stopped_exposes :
    (at : Setting) (h : Handler) (method entity : String) (status : ℕ) (r : Request)
    (store : List Log) (f : String)
    → r.handled ≡ false
    → is_success status ≡ false
    → logged_field f (serve at h stopped method entity status r store).1 ≡ field f r.body
stopped_exposes at h method entity status r store f fresh bad =
    rw
      (
        rows-serve at h stopped method entity status r store fresh,
        bad,
        logged_field-last f store (record {
          subject = subject_of unset r;
          entry = entry_of at method entity status (level_of status);
        }),
      )
      refl
