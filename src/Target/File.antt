-- ===== src/Target/File.antt =====
-- src/net/targets_file.c: the lines of a file of targets. What `fgets` reads is a parameter: the
-- bytes of each read, up to a NUL, with what `feof` says behind it.
use cytadel_scan.Base.{
  ℕ, ◌*◌, Bool, false, not, ◌&&◌, ◌||◌, Option, none, some, List, [], ◌∷◌, ◌++◌, Bytes, length, leb,
  ◌==◌, if◌then◌else◌,
}
use cytadel_scan.Target.{trim_front, trim_spaces_end, drop_end_while}

pub record Read : Type 0 where
  pub raw : Bytes
  pub eof : Bool

-- The values of `cytadel_targets_file_status_t`, with the lines where there are some.
pub data FileRead : Type 0 where
  lines_read : List Bytes → FileRead
  open_failed line_too_long too_many_lines no_memory : FileRead

abbrev pub max_lines : ℕ
max_lines = 100000

abbrev pub is_line_end : ℕ → Bool
is_line_end c = c == 10 || c == 13

abbrev pub before_hash : Bytes → Bytes
before_hash [] = []
before_hash (c ∷ s) = if c == b'#' then [] else c ∷ before_hash s

abbrev pub ends_with_newline : Bytes → Bool
ends_with_newline [] = false
ends_with_newline (c ∷ []) = c == 10
ends_with_newline (c ∷ d ∷ s) = ends_with_newline (d ∷ s)

unfoldable pub trim_line : Bytes → Bytes
trim_line line = trim_spaces_end (trim_front (before_hash (drop_end_while is_line_end line)))

-- What one round of the loop does: it goes on with the lines and a capacity, or it stops.
pub data Round : Type 0 where
  goes_on : List Bytes → ℕ → Round
  stops : FileRead → Round

-- `grow_ok` tells for a capacity whether `realloc` gives it, `copy_ok` for a line whether `malloc`
-- does.
module _ (grow_ok : ℕ → Bool) (copy_ok : Bytes → Bool) where
  unfoldable pub add_line : List Bytes → ℕ → Bytes → Round
  add_line lines capacity line =
      if leb max_lines (length lines)
      then stops too_many_lines
      else (let wider = if capacity == 0 then 16 else capacity * 2 in
          if length lines == capacity && not (grow_ok wider)
          then stops no_memory
          else if not (copy_ok line)
          then stops no_memory
          else goes_on (lines ++ (line ∷ []))
              (if length lines == capacity then wider else capacity))

  unfoldable pub round : List Bytes → ℕ → Read → Round
  round lines capacity r =
      if not (ends_with_newline r.raw) && not r.eof
      then stops line_too_long
      else if length (trim_line r.raw) == 0
      then goes_on lines capacity
      else add_line lines capacity (trim_line r.raw)

  unfoldable pub read_loop : List Bytes → ℕ → List Read → FileRead
  read_loop lines capacity [] = lines_read lines
  read_loop lines capacity (r ∷ rs) = elim (round lines capacity r) [
    | stops result ↦ result
    | goes_on more wider ↦ read_loop more wider rs
  ]

  -- A null or empty path, or a file that does not open, is an error of opening.
  unfoldable pub targets_file_read : (Bytes → Option (List Read)) → Bool → Option Bytes → FileRead
  targets_file_read open_file out_ok none = open_failed
  targets_file_read open_file out_ok (some path) =
      if not out_ok || length path == 0
      then open_failed
      else elim (open_file path) [ none ↦ open_failed | some reads ↦ read_loop [] 0 reads ]
