-- ===== src/Auth/Conversation.antt =====
-- `pam_conversation` of src/auth.c: one response for each message of PAM, and what becomes of the
-- memory. Block 0 is the array; the string for message i is block i + 1.
use kia.Base.{
  ℕ, suc, ◌+◌, ◌≡◌, ◌≢◌, ◌⊎◌, refl, subst, Bool, true, false, ◌||◌, List, [], ◌∷◌, ◌++◌, Option,
  none, some, ◌==◌, if◌then◌else◌, ltb, arith, ap, ◌∙◌, length, length-append, append-nil,
  Bool-cases, inl, inr,
}
use mathlib.Core.Path.{subst₂}

-- `msg_style`
pub data Style : Type 0 where
  prompt_echo_off prompt_echo_on error_msg text_info : Style
  other_style : ℕ → Style

pub data ConvCode : Type 0 where
  conv_success conv_err buf_err : ConvCode

-- `struct pam_response`: `resp` is a block, or null; `resp_retcode` is always 0.
pub record Response : Type 0 where
  pub resp : Option ℕ

-- What a call returns, and the blocks that it took and gave back, in order.
pub record Answered : Type 0 where
  pub code : ConvCode
  pub responses : Option (List Response)
  pub taken : List ℕ
  pub freed : List ℕ

abbrev asks : Style → Option Bool
asks prompt_echo_off = some true
asks prompt_echo_on = some true
asks error_msg = some false
asks text_info = some false
asks (other_style _) = none

-- `free((*resp)[j].resp)` for each response so far; to free a null pointer does nothing.
unfoldable pub strings_of : List Response → List ℕ
strings_of [] = []
strings_of (r ∷ rs) = elim r.resp [ none ↦ strings_of rs | some b ↦ b ∷ strings_of rs ]

-- Everything is freed and `*resp` is null.
abbrev give_up : ConvCode → List Response → List ℕ → Answered
give_up code rs taken = record {
  code = code;
  responses = none;
  taken = taken;
  freed = strings_of rs ++ 0 ∷ [];
}

-- The loop over the messages; `strdup` of message i works if `dups i`.
unfoldable pub respond : (ℕ → Bool) → List Style → ℕ → List Response → List ℕ → Answered
unfolding strings_of
respond dups [] i rs taken = record {
  code = conv_success;
  responses = some rs;
  taken = taken;
  freed = [];
}
respond dups (m ∷ ms) i rs taken =
    let silent = respond dups ms (suc i) (rs ++ record { resp = none } ∷ []) taken in
    let spoken =
      respond dups ms (suc i) (rs ++ record { resp = some (suc i) } ∷ []) (taken ++ suc i ∷ []) in
    elim (asks m) [
      | none ↦ give_up conv_err rs taken
      | some speaks ↦
          if speaks
          then elim (dups i) [ true ↦ spoken | false ↦ give_up buf_err rs taken ]
          else silent
    ]

-- `most` is PAM_MAX_NUM_MSG, `before` what `*resp` holds at first, and `has_password` says that the
-- conversation data are there.
unfoldable pub pam_conversation :
    ℕ → List Style → Option (List Response) → Bool → Bool → (ℕ → Bool) → Answered
unfolding respond
pam_conversation most ms before has_password callocs dups =
    if length ms == 0 || ltb most (length ms)
    then record { code = conv_err; responses = before; taken = []; freed = [] }
    else if has_password
    then if callocs
      then respond dups ms 0 [] (0 ∷ [])
      else record { code = buf_err; responses = none; taken = []; freed = [] }
    else record { code = conv_err; responses = before; taken = []; freed = [] }

abbrev pub count : ℕ → List ℕ → ℕ
count b [] = 0
count b (x ∷ xs) = (if b == x then 1 else 0) + count b xs

count-append : (b : ℕ) (xs ys : List ℕ) → count b (xs ++ ys) ≡ count b xs + count b ys
count-append b [] ys = omega arith
count-append b (x ∷ xs) ys = ground (arith, count-append b xs ys)

strings_of-append : (rs qs : List Response) → strings_of (rs ++ qs) ≡ strings_of rs ++ strings_of qs
unfolding strings_of
strings_of-append [] qs = refl
strings_of-append (r ∷ rs) qs = ground (arith, strings_of-append rs qs)

-- The array and the strings of the responses.
abbrev pub blocks : List Response → List ℕ
blocks rs = 0 ∷ strings_of rs

-- Either a response for each message, with every block taken in use and none freed; or no array,
-- with every block freed as often as it was taken.
pub data IsClean (n : ℕ) (a : Answered) : Type 0 where
  handed :
      (rs : List Response)
      → a.code ≡ conv_success
      → a.responses ≡ some rs
      → length rs ≡ n
      → a.freed ≡ []
      → a.taken ≡ blocks rs
      → IsClean n a
  dropped :
      a.code ≢ conv_success
      → a.responses ≡ none
      → ((b : ℕ) → count b a.taken ≡ count b a.freed)
      → IsClean n a

-- A call that ends before it takes anything, and leaves `*resp` as it was.
pub record IsUntouched (before : Option (List Response)) (a : Answered) : Type 0 where
  pub failed : a.code ≢ conv_success
  pub same : a.responses ≡ before
  pub nothing_taken : a.taken ≡ []
  pub nothing_freed : a.freed ≡ []

abbrev pub Answers : ℕ → Option (List Response) → Answered → Type 0
Answers n before a = IsClean n a ⊎ IsUntouched before a

untouched :
    {before : Option (List Response)} (code : ConvCode)
    → code ≢ conv_success
    → IsUntouched before (record { code = code; responses = before; taken = []; freed = [] })
untouched code h = record { failed = h; same = refl; nothing_taken = refl; nothing_freed = refl }

freed_all : (rs : List Response) (b : ℕ) → count b (blocks rs) ≡ count b (strings_of rs ++ 0 ∷ [])
freed_all rs b = ground (arith, count-append b (strings_of rs) (0 ∷ []))

give_up-IsClean :
    (n : ℕ) (code : ConvCode) (rs : List Response)
    → code ≢ conv_success
    → IsClean n (give_up code rs (blocks rs))
give_up-IsClean n code rs h = dropped h refl (freed_all rs)

-- One more response, with the blocks that it brings.
extend-IsClean :
    (n : ℕ) (rs : List Response) (r : Response) (more : List ℕ) (a : List ℕ → Answered)
    → strings_of (r ∷ []) ≡ more
    → IsClean (length (rs ++ r ∷ []) + n) (a (blocks (rs ++ r ∷ [])))
    → IsClean (length rs + suc n) (a (blocks rs ++ more))
extend-IsClean n rs r more a e h =
    let longer : length (rs ++ r ∷ []) + n ≡ length rs + suc n =
      omega (arith, length-append {0} rs (r ∷ [])) in
    let same : blocks (rs ++ r ∷ []) ≡ blocks rs ++ more =
      ap (◌∷◌ 0) (strings_of-append rs (r ∷ []) ∙ ap (◌++◌ (strings_of rs)) e) in
    subst₂ (λ k b. IsClean k (a b)) longer same h

-- The rest of the loop behind one more response.
step-IsClean :
    (dups : ℕ → Bool) (ms : List Style) (i : ℕ) (rs : List Response) (m : Style)
    → IsClean (length rs + suc (length ms)) (
        respond dups ms
          (suc i)
          (rs ++ record { resp = some (suc i) } ∷ [])
          (blocks rs ++ suc i ∷ []))
    → IsClean
        (length rs + suc (length ms))
        (respond dups ms (suc i) (rs ++ record { resp = none } ∷ []) (blocks rs))
    → IsClean (length rs + suc (length ms)) (respond dups (m ∷ ms) i rs (blocks rs))
unfolding respond
step-IsClean dups ms i rs error_msg spoken silent = silent
step-IsClean dups ms i rs text_info spoken silent = silent
step-IsClean dups ms i rs (other_style k) spoken silent = give_up-IsClean _ conv_err rs (λ e. cc)
step-IsClean dups ms i rs _ spoken silent = elim (Bool-cases (dups i)) [
  | inl e ↦ rw e spoken
  | inr e ↦ rw e (give_up-IsClean _ buf_err rs (λ e. cc))
]

respond-IsClean :
    (dups : ℕ → Bool) (ms : List Style) (i : ℕ) (rs : List Response)
    → IsClean (length rs + length ms) (respond dups ms i rs (blocks rs))
respond-IsClean dups [] i rs = unfold respond in handed rs refl refl (omega arith) refl refl
respond-IsClean dups (m ∷ ms) i rs =
    let spoken : Response = record { resp = some (suc i) } in
    let silent : Response = record { resp = none } in
    step-IsClean dups ms i rs m
      (extend-IsClean (length ms) rs spoken (suc i ∷ [])
        (respond dups ms (suc i) (rs ++ spoken ∷ [])) (unfold strings_of in refl)
        (respond-IsClean dups ms (suc i) (rs ++ spoken ∷ [])))
      (subst (IsClean _) (ap (respond dups ms (suc i) (rs ++ silent ∷ [])) (append-nil (blocks rs)))
        (extend-IsClean (length ms) rs silent [] (respond dups ms (suc i) (rs ++ silent ∷ []))
          (unfold strings_of in refl) (respond-IsClean dups ms (suc i) (rs ++ silent ∷ []))))

-- The conversation gives PAM one response for each message, or nothing at all and no leak: on
-- every error path each block is freed as often as it was taken, and what PAM held is null, or as
-- it was if there was nothing to take.
pub pam_conversation-IsClean :
    (most : ℕ) (ms : List Style) (before : Option (List Response)) (has_password callocs : Bool)
    (dups : ℕ → Bool)
    → Answers (length ms) before (pam_conversation most ms before has_password callocs dups)
unfolding pam_conversation
pam_conversation-IsClean most ms before has_password callocs dups =
    elim (Bool-cases (length ms == 0 || ltb most (length ms))) [
      | inl bad ↦ rw bad (inr (untouched conv_err (λ e. cc)))
      | inr fine ↦ rw fine (behind has_password callocs)
    ]
  where
    behind :
        (p c : Bool)
        → Answers (length ms) before (
            if p
            then if c
              then respond dups ms 0 [] (0 ∷ [])
              else record { code = buf_err; responses = none; taken = []; freed = [] }
            else record { code = conv_err; responses = before; taken = []; freed = [] })
    behind false c = inr (untouched conv_err (λ e. cc))
    behind true false = inl (dropped (λ e. cc) refl (λ b. refl))
    behind true true =
        let none_yet : 0 + length ms ≡ length ms = omega arith in
        inl (
          subst₂ (λ k t. IsClean k (respond dups ms 0 [] t)) none_yet (unfold strings_of in refl)
            (respond-IsClean dups ms 0 []))
