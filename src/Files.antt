-- ===== src/Files.antt =====
-- The regular files that the tools read and write, and the operating system's answers to writes.
use shipcheck.Base.{
  String, ◌==◌, Bool, true, false, Option, none, some, List, [], ◌∷◌, Result, ok, err,
  if◌then◌else◌,
}
use shipcheck.Base.Exec.{Exec}

-- What the operating system does with a write: it is done, it raises `OSError` before any effect,
-- or, where a file is created and written in place, it raises after some bytes were written (`torn`),
-- or `os.write` returns after some bytes and does not raise (`cut`). `cut` is like `done` elsewhere:
-- the streams of Python write the rest.
pub data Answer (Bytes : Type 0) : Type 0 where
  done refused : Answer Bytes
  torn cut : Bytes → Answer Bytes

-- The files by normalised path, and the answers to the writes to come; behind the last answer
-- writes are done. Reading does not fail, no other process interferes, missing folders are made,
-- and `replace_file` does not show its temporary file, which a write to it that fails leaves behind.
pub record Disk (Bytes : Type 0) : Type 0 where
  pub file : String → Option Bytes
  pub answers : List (Answer Bytes)

module _ {Bytes : Type 0} where
  abbrev pub update : (String → Option Bytes) → String → Option Bytes → String → Option Bytes
  update f p v q = if p == q then v else f q

  abbrev pub is_file : Option Bytes → Bool
  is_file none = false
  is_file (some b) = true

  abbrev pub next_answer : List (Answer Bytes) → Answer Bytes × List (Answer Bytes)
  next_answer [] = (done, [])
  next_answer (a ∷ rest) = (a, rest)

-- The actions over the exceptions of a tool, which `os_error` embeds.
module _ {Bytes E : Type 0} (os_error : E) where
  -- `path.read_bytes()`
  abbrev pub read_bytes : String → Exec (Disk Bytes) E Bytes
  read_bytes p w = (elim (w.file p) [ none ↦ err os_error | some b ↦ ok b ], w)

  abbrev written :
      Answer Bytes
      → Result E (Unit {0}) × (String → Option Bytes)
      → (String → Option Bytes)
      → Result E (Unit {0}) × (String → Option Bytes)
  written done after before = after
  written (cut b) after before = after
  written refused after before = (err os_error, before)
  written (torn b) after before = (err os_error, before)

  -- an operation that happens at once or not at all: `os.replace`, `unlink`
  abbrev pub at_once :
      ((String → Option Bytes) → String → Option Bytes) → Exec (Disk Bytes) E (Unit {0})
  at_once change w =
      let (answer, rest) = next_answer w.answers in
      let (r, files) = written answer (ok tt, change w.file) w.file in
      (r, record { file = files; answers = rest })

  -- a temporary file, and `os.replace` of the target by it
  abbrev pub replace_file : String → Bytes → Exec (Disk Bytes) E (Unit {0})
  replace_file p b = at_once (λ f. update f p (some b))

  -- `path.unlink()` of a file that exists
  abbrev pub unlink : String → Exec (Disk Bytes) E (Unit {0})
  unlink p = at_once (λ f. update f p none)

  -- `os.replace(p, q)` of a file that may be missing
  abbrev pub move_file : String → String → Exec (Disk Bytes) E (Unit {0})
  move_file p q w = elim (w.file p) [
    | none ↦ (err os_error, w)
    | some b ↦ at_once (λ f. update (update f p none) q (some b)) w
  ]

  abbrev created :
      Answer Bytes
      → Bytes
      → String
      → (String → Option Bytes)
      → Result E (Unit {0}) × (String → Option Bytes)
  created done b p f = (ok tt, update f p (some b))
  created refused b p f = (err os_error, f)
  created (cut part) b p f = (ok tt, update f p (some part))
  created (torn part) b p f = (err os_error, update f p (some part))

  -- `os.open` with `O_CREAT | O_EXCL`, and one `os.write` in place, whose count is not looked at
  abbrev pub create_file : String → Bytes → Exec (Disk Bytes) E (Unit {0})
  create_file p b w =
      let (answer, rest) = next_answer w.answers in
      let (r, files) =
        (if is_file (w.file p) then (err os_error, w.file) else created answer b p w.file) in
      (r, record { file = files; answers = rest })

  abbrev staged :
      Answer Bytes
      → Bytes
      → String
      → (String → Option Bytes)
      → Result E (Unit {0}) × (String → Option Bytes)
  staged done b p f = (ok tt, update f p (some b))
  staged (cut part) b p f = (ok tt, update f p (some b))
  staged refused b p f = (err os_error, f)
  staged (torn part) b p f = (err os_error, update f p (some part))

  -- `NamedTemporaryFile(delete=False)` of the name `p`, which is free, and the writes to its stream;
  -- where one raises, the file stays
  abbrev pub stage_file : String → Bytes → Exec (Disk Bytes) E (Unit {0})
  stage_file p b w =
      let (answer, rest) = next_answer w.answers in
      let (r, files) = staged answer b p w.file in (r, record { file = files; answers = rest })

module _ {Bytes E : Type 0} where
  -- `path.exists()`
  abbrev pub path_exists : String → Exec (Disk Bytes) E Bool
  path_exists p w = (ok (is_file (w.file p)), w)
