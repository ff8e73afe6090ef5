-- ===== src/BuildLogs.antt =====
-- The paths of the build logs (piwheels/build_logs.py). A path is the list of its parts.
use piwheels.Prelude.{
  ℕ, ◌+◌, ◌-◌, ◌*◌, ◌/◌, ◌%◌, ◌<◌, list_eq, nat_eq, ◌==◌, beq_refl, ◌≡◌, refl, ◌∙◌, ap, Bool, true,
  false, ◌&&◌, ◌||◌, Option, none, some, List, [], ◌∷◌, ◌++◌, Text, text, if◌then◌else◌, ltb, leb,
  nat_beq, arith,
}

abbrev pub Location : Type 0
Location = List Text

abbrev digit : ℕ → ℕ
digit n = 48 + n % 10

-- "{:04d}".format(n), for n < 10000
unfoldable pub four_digits : ℕ → Text
four_digits n = digit (n / 1000) ∷ digit (n / 100) ∷ digit (n / 10) ∷ digit n ∷ []

-- The three levels are those of three times divmod(n, 10000), the highest one first.
unfoldable pub get_log_file_path : ℕ → Location → Location
unfolding four_digits
get_log_file_path build_id output =
    output
    ++ text "logs"
      ∷ four_digits (build_id / 10000 / 10000 % 10000)
      ∷ four_digits (build_id / 10000 % 10000)
      ∷ (four_digits (build_id % 10000) ++ text ".txt.gz")
      ∷ []

-- path.relative_to(base); `none` is ValueError
unfoldable pub relative_to : Location → Location → Option Location
relative_to [] path = some path
relative_to (b ∷ base) [] = none
relative_to (b ∷ base) (p ∷ path) =
    let rest = relative_to base path in if b == p then rest else none

unfoldable pub has_dot : Text → Bool
has_dot [] = false
has_dot (c ∷ s) = nat_beq c 46 || has_dot s

-- A name without what follows its last dot. (A name that starts or ends with its only dot has no
-- suffix for pathlib; no name of a log is so.)
unfoldable pub without_suffix : Text → Text
unfolding has_dot
without_suffix [] = []
without_suffix (c ∷ s) =
    let rest = without_suffix s in
    if has_dot s then c ∷ rest else if nat_beq c 46 then [] else c ∷ rest

-- path.with_suffix(""), on the last part
unfoldable pub with_no_suffix : Location → Location
unfolding without_suffix
with_no_suffix [] = []
with_no_suffix (p ∷ []) = without_suffix p ∷ []
with_no_suffix (p ∷ q ∷ path) = p ∷ with_no_suffix (q ∷ path)

-- "".join(parts)
unfoldable pub join : Location → Text
join [] = []
join (p ∷ path) = p ++ join path

-- int(s), of digits; `none` is ValueError. (Python's `int` also takes signs, spaces and underscores.)
unfoldable pub parse_int : ℕ → Text → Option ℕ
parse_int acc [] = some acc
parse_int acc (c ∷ s) =
    let rest = parse_int (acc * 10 + (c - 48)) s in if leb 48 c && ltb c 58 then rest else none

unfoldable pub log_path_to_build_id : Location → Location → Option ℕ
unfolding relative_to with_no_suffix join parse_int
log_path_to_build_id output path = elim (relative_to (output ++ text "logs" ∷ []) path) [
  | none ↦ none
  | some rel ↦ parse_int 0 (join (with_no_suffix (with_no_suffix rel)))
]

relative_to-++ :
    (base rest : Location) (p : Text) → relative_to (base ++ p ∷ []) (base ++ p ∷ rest) ≡ some rest
unfolding relative_to
relative_to-++ [] rest p = rw (beq_refl p) refl
relative_to-++ (b ∷ base) rest p = rw (beq_refl b) (relative_to-++ base rest p)

parse_digit : (acc n : ℕ) (s : Text) → parse_int acc (digit n ∷ s) ≡ parse_int (acc * 10 + n % 10) s
unfolding parse_int
parse_digit acc n s = ground arith

four_digits-value :
    (n : ℕ)
    → n < 10000
    → (((n / 1000 % 10) * 10 + n / 100 % 10) * 10 + n / 10 % 10) * 10 + n % 10 ≡ n
four_digits-value n h = omega arith

has_dot-++ : (w s : Text) → has_dot s ≡ true → has_dot (w ++ s) ≡ true
unfolding has_dot
has_dot-++ [] s h = h
has_dot-++ (c ∷ w) s h = ground (arith, has_dot-++ w s h)

without_suffix-++ :
    (w s : Text) → has_dot s ≡ true → without_suffix (w ++ s) ≡ w ++ without_suffix s
unfolding without_suffix
without_suffix-++ [] s h = refl
without_suffix-++ (c ∷ w) s h = rw (has_dot-++ w s h) (ap (λ t. c ∷ t) (without_suffix-++ w s h))

-- A last part of four digits, without its two suffixes.
without_suffix-twice :
    (n : ℕ) → without_suffix (without_suffix (four_digits n ++ text ".txt.gz")) ≡ four_digits n
unfolding without_suffix has_dot four_digits
without_suffix-twice n =
    ap without_suffix (without_suffix-++ (four_digits n) (text ".txt.gz") refl)
    ∙ without_suffix-++ (four_digits n) (text ".txt") refl

parse_int-four_digits :
    (acc n : ℕ) (s : Text)
    → n < 10000
    → parse_int acc (four_digits n ++ s) ≡ parse_int (acc * 10000 + n) s
unfolding four_digits
parse_int-four_digits acc n s h =
    parse_digit acc (n / 1000) (digit (n / 100) ∷ digit (n / 10) ∷ digit n ∷ s)
    ∙ parse_digit (acc * 10 + n / 1000 % 10) (n / 100) (digit (n / 10) ∷ digit n ∷ s)
    ∙ parse_digit ((acc * 10 + n / 1000 % 10) * 10 + n / 100 % 10) (n / 10) (digit n ∷ s)
    ∙ parse_digit (((acc * 10 + n / 1000 % 10) * 10 + n / 100 % 10) * 10 + n / 10 % 10) n s
    ∙ ap (λ k. parse_int k s) (omega (arith, four_digits-value n h))

-- The id that is read back from the path of a log, under any directory, is the build's id modulo
-- 10^12; so it is the id itself as long as that has at most twelve digits, and only from there on
-- can two builds have the same path.
pub log_path_to_build_id-get_log_file_path :
    (build_id : ℕ) (output : Location)
    → (log_path_to_build_id output (get_log_file_path build_id output)
        ≡ some (build_id % 1000000000000))
      × (build_id < 1000000000000
          → log_path_to_build_id output (get_log_file_path build_id output) ≡ some build_id)
unfolding log_path_to_build_id get_log_file_path with_no_suffix join
log_path_to_build_id-get_log_file_path build_id output =
    let a = build_id / 10000 / 10000 % 10000 in
    let b = build_id / 10000 % 10000 in
    let c = build_id % 10000 in
    let read : log_path_to_build_id output (get_log_file_path build_id output)
        ≡ some ((a * 10000 + b) * 10000 + c) =
      rw
        (
          relative_to-++ output
              (four_digits a ∷ four_digits b ∷ (four_digits c ++ text ".txt.gz") ∷ [])
              (text "logs"),
          log_path_to_build_id,
        )
        (rw (without_suffix-twice c) (
          parse_int-four_digits 0 a (four_digits b ++ (four_digits c ++ [])) (omega arith)
          ∙ ap (λ k. parse_int k (four_digits b ++ (four_digits c ++ []))) (omega arith)
          ∙ parse_int-four_digits a b (four_digits c ++ []) (omega arith)
          ∙ parse_int-four_digits (a * 10000 + b) c [] (omega arith))) in
    (read ∙ ap some (omega arith), λ small. read ∙ ap some (omega (arith, small)))
