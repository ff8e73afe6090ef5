-- ===== src/Files/Waiting.antt =====
-- Which files of a build wait to be sent.
use piwheels.Prelude.{
  list_eq, nat_eq, ◌≡◌, subst, true, false, some, List, [], ◌∷◌, Text, All, Bool-cases, inl, inr,
}
use piwheels.Dict.{Dict, insert}
use piwheels.Dict.Laws.{All-insert}
use piwheels.Files.Next.{All-insert_sorted}
use piwheels.Files.{
  FileState, FileMessage, BuildState, first_waiting, next_file, sorted_items, file_from_message,
  files_from_messages,
}

-- Every file that waits has a name of that kind.
abbrev pub Waits : (Text → Type 0) → Dict Text FileState → Type 0
Waits P = All (λ e. e.1.transferred ≡ false → P e.0)

module _ (P : Text → Type 0) where
  sorted_items-Waits : (d : Dict Text FileState) → Waits P d → Waits P (sorted_items d)
  unfolding sorted_items
  sorted_items-Waits [] h = tt
  sorted_items-Waits ((k, f) ∷ d) h =
      All-insert_sorted (λ e. e.1.transferred ≡ false → P e.0) k f (sorted_items d) h.0
        (sorted_items-Waits d h.1)

  first_waiting-Waits :
      (n : Text) (d : Dict Text FileState) → Waits P d → first_waiting d ≡ some n → P n
  unfolding first_waiting
  first_waiting-Waits n [] h e = cc
  first_waiting-Waits n ((k, f) ∷ d) h e = elim (Bool-cases f.transferred) [
    | inl sent ↦ first_waiting-Waits n d h.1 (rw (sent, first_waiting) at e)
    | inr waits ↦
        let here : some k ≡ some n = rw (waits, first_waiting) at e in
        let same : k ≡ n = cc in subst P same (h.0 waits)
  ]

  -- The next file is one that waits.
  pub next_file-Waits : (b : BuildState) (n : Text) → Waits P b.files → next_file b ≡ some n → P n
  unfolding next_file
  next_file-Waits b n h e =
      first_waiting-Waits n (sorted_items b.files) (sorted_items-Waits b.files h) e

  -- A file that need not be sent can be entered.
  pub insert-Waits :
      (k : Text) (f : FileState) (d : Dict Text FileState)
      → f.transferred ≡ true
      → Waits P d
      → Waits P (insert k f d)
  insert-Waits k f d t h = All-insert (λ e. e.1.transferred ≡ false → P e.0) k f d (λ waits. cc) h

  -- The files of a BUILT message wait under names that the message has.
  pub files_from_messages-Waits :
      (ms : List FileMessage) (d : Dict Text FileState)
      → All (λ m. P m.filename) ms
      → Waits P d
      → Waits P (files_from_messages ms d)
  unfolding files_from_messages file_from_message
  files_from_messages-Waits [] d p h = h
  files_from_messages-Waits (m ∷ ms) d p h =
      files_from_messages-Waits ms (insert m.filename (file_from_message m) d) p.1 (
        All-insert (λ e. e.1.transferred ≡ false → P e.0) m.filename (file_from_message m) d
          (λ _. p.0) h)
