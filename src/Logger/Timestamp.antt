-- ===== src/Logger/Timestamp.antt =====
-- What `get_iso8601_timestamp` of src/logger.c leaves in its array.
use kia.Base.{
  ℕ, zero, suc, ◌+◌, ◌-◌, ◌/◌, ◌%◌, ◌<◌, ◌≡◌, refl, subst, sym, true, false, [], ◌∷◌, ◌++◌, Option,
  none, some, All-append, take, drop, length, ltb, ◌==◌, if◌then◌else◌, arith, Bool-cases, inl, inr,
  length-append, length-take, length-drop,
}
use kia.Text.{Bytes, IsText, IsBuffer, codes, cstr, decimal, decimal_onto}
use kia.Logger.{
  Tm, LogSystem, two_digits, behind_year, iso8601, strftime, put_string, put_unknown,
  after_strftime, timestamp_of, timestamp_at, get_iso8601_timestamp,
}

-- `gmtime` of what `time` answers, if both work.
abbrev pub calendar : LogSystem → Option ℕ → Option Tm
calendar sys none = none
calendar sys (some now) = sys.gmtime now

-- The text for an array of the size: the time if it fits, and else as much of UNKNOWN as does.
abbrev pub stamp : ℕ → Option Tm → Bytes
stamp size none = take (size - 1) (codes "UNKNOWN")
stamp size (some tm) =
    if ltb (length (iso8601 tm)) size then iso8601 tm else take (size - 1) (codes "UNKNOWN")

-- An array of the size that holds the text.
abbrev pub Holds : ℕ → Bytes → Bytes → Type 0
Holds size text b = IsBuffer size b × (cstr b ≡ text)

cstr-string : (text rest : Bytes) → IsText text → cstr (text ++ 0 ∷ rest) ≡ text
unfolding cstr
cstr-string [] rest t = refl
cstr-string (c ∷ text) rest t = ground (arith, cstr-string text rest t.1)

put_string-Holds :
    (text b : Bytes)
    → IsText text
    → length text < length b
    → Holds (length b) text (put_string text b)
unfolding put_string
put_string-Holds text b t h =
    let held = cstr-string text (drop (length text + 1) b) t in
    (
      record {
        sized = omega (
          arith,
          length-append {0} text (0 ∷ drop (length text + 1) b),
          length-drop {0} (length text + 1) b,
        );
        terminated = rw held h;
      },
      held,
    )

take-IsText : (n : ℕ) (s : Bytes) → IsText s → IsText (take n s)
unfolding take
take-IsText zero s t = tt
take-IsText (suc n) [] t = tt
take-IsText (suc n) (c ∷ s) t = (t.0, take-IsText n s t.1)

decimal_onto-IsText : (f n : ℕ) (rest : Bytes) → IsText rest → IsText (decimal_onto f n rest)
unfolding decimal_onto
decimal_onto-IsText zero n rest t = t
decimal_onto-IsText (suc f) n rest t =
    ground (arith, decimal_onto-IsText f (n / 10) ((b'0' + n % 10) ∷ rest) (omega arith, t))

behind_year-IsText : (tm : Tm) → IsText (behind_year tm)
unfolding behind_year two_digits
behind_year-IsText tm = ground arith

iso8601-IsText : (tm : Tm) → IsText (iso8601 tm)
unfolding iso8601 decimal
iso8601-IsText tm =
    All-append (λ c. 0 < c) (decimal (tm.tm_year + 1900)) (behind_year tm)
      (decimal_onto-IsText (suc (tm.tm_year + 1900)) (tm.tm_year + 1900) [] tt)
      (behind_year-IsText tm)

strftime_fits :
    (size : ℕ) (tm : Tm)
    → ltb (length (iso8601 tm)) size ≡ true
    → strftime size tm ≡ some (iso8601 tm)
unfolding strftime
strftime_fits size tm fits = rw fits refl

strftime_long :
    (size : ℕ) (tm : Tm) → ltb (length (iso8601 tm)) size ≡ false → strftime size tm ≡ none
unfolding strftime
strftime_long size tm long = rw long refl

module _ (sys : LogSystem) (in_place : (b : Bytes) → length (sys.garbles b) ≡ length b) where
  put_unknown-Holds :
      (b : Bytes)
      → 0 < length b
      → Holds (length b) (take (length b - 1) (codes "UNKNOWN")) (put_unknown b)
  unfolding put_unknown
  put_unknown-Holds b p =
      put_string-Holds (take (length b - 1) (codes "UNKNOWN")) b
        (take-IsText (length b - 1) (codes "UNKNOWN") (omega arith))
        (omega (arith, length-take (length b - 1) (codes "UNKNOWN")))

  -- Behind a `strftime` that has failed.
  garbled-Holds :
      (b : Bytes)
      → 0 < length b
      → Holds (length b) (take (length b - 1) (codes "UNKNOWN")) (put_unknown (sys.garbles b))
  garbled-Holds b p =
      subst (λ n. Holds n (take (n - 1) (codes "UNKNOWN")) (put_unknown (sys.garbles b)))
        (in_place b) (put_unknown-Holds (sys.garbles b) (omega (arith, in_place b)))

  timestamp_of-Holds :
      (b : Bytes) (o : Option Tm)
      → 0 < length b
      → Holds (length b) (stamp (length b) o) (timestamp_of sys b o)
  unfolding timestamp_of
  timestamp_of-Holds b none p = put_unknown-Holds b p
  timestamp_of-Holds b (some tm) p = elim (Bool-cases (ltb (length (iso8601 tm)) (length b))) [
    | inl fits ↦ rw fits (
        subst (λ o. Holds (length b) (iso8601 tm) (after_strftime sys b o))
          (sym (strftime_fits (length b) tm fits))
          (put_string-Holds (iso8601 tm) b (iso8601-IsText tm) (ground arith)))
    | inr long ↦ rw long (
        subst
          (λ o. Holds (length b) (take (length b - 1) (codes "UNKNOWN")) (after_strftime sys b o))
          (sym (strftime_long (length b) tm long)) (garbled-Holds b p))
  ]

  timestamp_at-Holds :
      (b : Bytes) (o : Option ℕ)
      → 0 < length b
      → Holds (length b) (stamp (length b) (calendar sys o)) (timestamp_at sys b o)
  unfolding timestamp_at
  timestamp_at-Holds b none p = put_unknown-Holds b p
  timestamp_at-Holds b (some now) p = timestamp_of-Holds b (sys.gmtime now) p

  -- Whatever the clock says and whatever the array held, an array that is not empty holds a
  -- terminated string behind the call and has its size: the time in ISO 8601 if the clock answers
  -- and the text fits, and else as much of UNKNOWN as fits. A `strftime` that fails may leave
  -- anything in the array, but writes nothing outside.
  pub get_iso8601_timestamp-Holds :
      (b : Bytes)
      → 0 < length b
      → Holds (length b) (stamp (length b) (calendar sys sys.time)) (get_iso8601_timestamp sys b)
  unfolding get_iso8601_timestamp
  get_iso8601_timestamp-Holds b p =
      let some_room : (length b == 0) ≡ false = ground arith in
      rw some_room (timestamp_at-Holds b sys.time p)
