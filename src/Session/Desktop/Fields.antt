-- ===== src/Session/Desktop/Fields.antt =====
-- What `parse_desktop_file` of src/session.c accepts is a session that can be shown and started.
use kia.Base.{
  ℕ, zero, suc, ◌<◌, ◌≡◌, refl, Bool, true, false, not, ◌&&◌, ◌||◌, [], ◌∷◌, Option, length, drop,
  arith, Bool-cases, Option-cases, inl, inr,
}
use kia.Code.{Code, success}
use kia.Text.{Bytes, IsText, IsBuffer, cstr, is_empty, zeros, copy_string}
use kia.Text.Buffers.{cstr-IsText, copy_string-IsBuffer, cstr-copy_string_fits, length-zeros}
use kia.Stdio.{File, fgets, skip_line, is_truncated}
use kia.Config.{name_size}
use kia.Session.{SessionType, SessionInfo, exec_size}
use kia.Session.Desktop.{
  Found, cut_line, starts_with, name_prefix, exec_prefix, value_of, value_fits, take_name,
  take_exec, parse_line, parse_lines, finish_parse, parse_opened, parse_desktop_file,
}

-- An array that holds a string of at least one byte.
pub record IsFilled (size : ℕ) (b : Bytes) : Type 0 where
  pub buffer : IsBuffer size b
  pub not_empty : 0 < length (cstr b)

pub record IsSession (type : SessionType) (s : SessionInfo) : Type 0 where
  pub name_filled : IsFilled name_size s.name
  pub exec_filled : IsFilled exec_size s.exec
  pub typed : s.type ≡ type

-- The arrays have their size, and a flag that is set means a string.
record IsFound (f : Found) : Type 0 where
  name_sized : length f.session.name ≡ name_size
  exec_sized : length f.session.exec ≡ exec_size
  name_found : f.found_name ≡ true → IsFilled name_size f.session.name
  exec_found : f.found_exec ≡ true → IsFilled exec_size f.session.exec

copied-IsFilled :
    (size : ℕ) (dst v : Bytes)
    → length dst ≡ size
    → IsText v
    → value_fits size v ≡ true
    → IsFilled size (copy_string size dst v)
copied-IsFilled size dst v s t h =
    let fits : (0 < length v) × (length v < size) = ground (arith, h) in
    record {
      buffer = copy_string-IsBuffer size dst v (omega arith) s t;
      not_empty = rw (cstr-copy_string_fits size dst v fits.1 s t) fits.0;
    }

take_name-IsFound : (v : Bytes) (f : Found) → IsText v → IsFound f → IsFound (take_name v f)
unfolding take_name
take_name-IsFound v f t h = elim (Bool-cases (value_fits name_size v)) [
  | inr no_fit ↦ rw no_fit h
  | inl fit ↦
      let filled = copied-IsFilled name_size f.session.name v h.name_sized t fit in
      rw fit (record {
        name_sized = filled.buffer.sized;
        exec_sized = h.exec_sized;
        name_found = λ _. filled;
        exec_found = h.exec_found;
      })
]

take_exec-IsFound : (v : Bytes) (f : Found) → IsText v → IsFound f → IsFound (take_exec v f)
unfolding take_exec
take_exec-IsFound v f t h = elim (Bool-cases (value_fits exec_size v)) [
  | inr no_fit ↦ rw no_fit h
  | inl fit ↦
      let filled = copied-IsFilled exec_size f.session.exec v h.exec_sized t fit in
      rw fit (record {
        name_sized = h.name_sized;
        exec_sized = filled.buffer.sized;
        name_found = h.name_found;
        exec_found = λ _. filled;
      })
]

drop-IsText : (n : ℕ) (s : Bytes) → IsText s → IsText (drop n s)
unfolding drop
drop-IsText zero s h = h
drop-IsText (suc n) [] h = tt
drop-IsText (suc n) (c ∷ s) h = drop-IsText n s h.1

parse_line-IsFound :
    (line : Bytes) (f : Found) → IsText line → IsFound f → IsFound (parse_line line f)
unfolding parse_line
parse_line-IsFound line f t h =
    let name = take_name-IsFound (value_of line) f (drop-IsText 5 line t) h in
    let exec = take_exec-IsFound (value_of line) f (drop-IsText 5 line t) h in
    elim (Bool-cases (starts_with name_prefix line && not f.found_name)) [
      | inl a ↦ rw a name
      | inr a ↦ elim (Bool-cases (starts_with exec_prefix line && not f.found_exec)) [
        | inl b ↦ rw (a, b) exec
        | inr b ↦ rw (a, b) h
      ]
    ]

cut_line-IsText : (s : Bytes) → IsText s → IsText (cut_line s)
unfolding cut_line
cut_line-IsText [] h = tt
cut_line-IsText (c ∷ cs) h = ground (arith, cut_line-IsText cs h.1)

parse_lines-IsFound :
    (fuel : ℕ) (s : Bytes) (f : Found) → IsFound f → IsFound (parse_lines fuel s f).0
unfolding parse_lines
parse_lines-IsFound zero s f h = h
parse_lines-IsFound (suc fuel) s f h = elim (Option-cases (fgets 1024 s)) [
  | inl end ↦ rw (end, parse_lines) h
  | inr (l, got) ↦ elim (Bool-cases (is_truncated l)) [
    | inl long ↦ rw (got, parse_lines, long) (parse_lines-IsFound fuel (skip_line l.rest) f h)
    | inr whole ↦
        let f' = parse_line (cut_line (cstr l.text)) f in
        let h' =
          parse_line-IsFound (cut_line (cstr l.text)) f
            (cut_line-IsText (cstr l.text) (cstr-IsText l.text)) h in
        elim (Bool-cases (f'.found_name && f'.found_exec)) [
          | inl both ↦ rw (got, parse_lines, whole, both) h'
          | inr more ↦ rw (got, parse_lines, whole, more) (parse_lines-IsFound fuel l.rest f' h')
        ]
  ]
]

-- The arrays have their declared sizes.
pub record IsSlot (s : SessionInfo) : Type 0 where
  pub name_sized : length s.name ≡ name_size
  pub exec_sized : length s.exec ≡ exec_size

-- What comes back with a code: a session, or at least a structure whose arrays have their size.
abbrev pub IsParsed : SessionType → Code × SessionInfo → Type 0
IsParsed type r = (r.0 ≡ success → IsSession type r.1) × IsSlot r.1

finish_parse-IsParsed :
    (type : SessionType) (broken at_end : Bool) (f : Found)
    → IsFound f
    → IsParsed type (finish_parse type broken (f, at_end)).0
unfolding finish_parse
finish_parse-IsParsed type broken at_end f h = elim (Bool-cases (at_end && broken)) [
  | inl bad ↦ rw bad (λ e. cc, slot)
  | inr fine ↦ elim (Bool-cases (not f.found_name || not f.found_exec)) [
    | inl missing ↦ rw (fine, missing) (λ e. cc, slot)
    | inr both ↦
        let found : (f.found_name ≡ true) × (f.found_exec ≡ true) = ground arith in
        rw (fine, both)
          (
            λ e. record {
              name_filled = h.name_found found.0;
              exec_filled = h.exec_found found.1;
              typed = refl;
            },
            record { name_sized = h.name_sized; exec_sized = h.exec_sized },
          )
  ]
]
  where
    slot : IsSlot f.session
    slot = record { name_sized = h.name_sized; exec_sized = h.exec_sized }

-- On arrays of the declared sizes, a desktop file that is accepted gives a session of the type
-- asked for, with a name and a command that are terminated in their arrays and not empty; one that
-- is refused leaves arrays of the declared sizes.
pub parse_desktop_file-IsParsed :
    (fopen : Bytes → Option File) (path : Bytes) (s : SessionInfo) (type : SessionType)
    → IsSlot s
    → IsParsed type (parse_desktop_file fopen path s type).0
unfolding parse_desktop_file parse_opened
parse_desktop_file-IsParsed fopen path s type h = elim (Bool-cases (is_empty path)) [
  | inl nowhere ↦ rw nowhere (λ e. cc, h)
  | inr somewhere ↦ elim (Option-cases (fopen path)) [
    | inl missing ↦ rw (somewhere, missing, parse_opened) (λ e. cc, h)
    | inr (file, opened) ↦
        rw (somewhere, opened, parse_opened)
          (finish_parse-IsParsed type file.read_error _ _
            (parse_lines-IsFound (suc (length file.contents)) file.contents _ start))
  ]
]
  where
    start : IsFound (record {
      session = record s { name = zeros name_size; exec = zeros exec_size };
      found_name = false;
      found_exec = false;
    })
    start = record {
      name_sized = length-zeros name_size;
      exec_sized = length-zeros exec_size;
      name_found = λ e. cc;
      exec_found = λ e. cc;
    }
