-- ===== src/Secretary/Buffer.antt =====
-- The invariant of TheSecretary: one buffered task for each command, and none without.
use piwheels.Prelude.{
  ℕ, Eq, list_eq, nat_eq, ◌≡◌, refl, ◌∙◌, sym, true, false, [], ◌∷◌, ◌++◌, Text, if◌then◌else◌,
  arith, Bool-cases, inl, inr,
}
use piwheels.Dict.{Dict, has}
use piwheels.Dict.Laws.{NodupKeys, has-insert, has-remove}
use piwheels.Secretary.{
  Command, project, both, WebRequest, home, search, log, write, delete_package, delete_version,
  Secretary, delete_first, expunge, upgrade, request_write, handle_input,
}

abbrev pub text_eq : Eq Text
text_eq = list_eq

-- The packages of the buffer are distinct, and are those that have a command.
pub record Matches (buffer : Dict Text ℕ) (commands : Dict Text Command) : Type 0 where
  pub nodup : NodupKeys buffer
  pub same : (p : Text) → has p commands ≡ has p buffer

abbrev pub IsValid : Secretary → Type 0
IsValid s = Matches s.buffer s.commands

pub has-append_one :
    (k p : Text) (at : ℕ) (b : Dict Text ℕ)
    → has k (b ++ (p, at) ∷ []) ≡ (if text_eq.beq p k then true else has k b)
unfolding has
has-append_one k p at [] = refl
has-append_one k p at ((q, t) ∷ b) = ground (arith, has-append_one k p at b)

pub append_one-NodupKeys :
    (p : Text) (at : ℕ) (b : Dict Text ℕ)
    → has p b ≡ false
    → NodupKeys b
    → NodupKeys (b ++ (p, at) ∷ [])
unfolding has
append_one-NodupKeys p at [] new n = (refl, tt)
append_one-NodupKeys p at ((q, t) ∷ b) new n = ground (
  arith,
  text_eq.beq_iff p q,
  text_eq.beq_iff q p,
  has-append_one q p at b,
  append_one-NodupKeys p at b,
)

has-delete_first-le :
    (k p : Text) (b : Dict Text ℕ) → has k b ≡ false → has k (delete_first p b) ≡ false
unfolding has delete_first
has-delete_first-le k p [] h = refl
has-delete_first-le k p ((q, t) ∷ b) h = ground (arith, has-delete_first-le k p b)

has-delete_first :
    (k p : Text) (b : Dict Text ℕ)
    → NodupKeys b
    → has k (delete_first p b) ≡ (if text_eq.beq p k then false else has k b)
unfolding has delete_first
has-delete_first k p [] n = ground arith
has-delete_first k p ((q, t) ∷ b) n = ground (
  arith,
  text_eq.beq_iff p k,
  text_eq.beq_iff q p,
  text_eq.beq_iff q k,
  has-delete_first k p b n.1,
)

delete_first-NodupKeys : (p : Text) (b : Dict Text ℕ) → NodupKeys b → NodupKeys (delete_first p b)
unfolding delete_first
delete_first-NodupKeys p [] n = tt
delete_first-NodupKeys p ((q, t) ∷ b) n =
    ground (arith, has-delete_first-le q p b, delete_first-NodupKeys p b n.1)

expunge-IsValid : (p : Text) (s : Secretary) → IsValid s → IsValid (expunge p s)
unfolding expunge
expunge-IsValid p s v = elim (Bool-cases (has p s.commands)) [
  | inl known ↦ rw known (record {
    nodup = delete_first-NodupKeys p s.buffer v.nodup;
    same =
        λ k. rw (has-remove p k s.commands, has-delete_first k p s.buffer v.nodup, v.same k) refl;
  })
  | inr new ↦ rw new v
]

has-upgrade :
    (c : Command) (p k : Text) (d : Dict Text Command)
    → has p d ≡ true
    → has k (upgrade c p d) ≡ has k d
unfolding upgrade
has-upgrade project p k d h = refl
has-upgrade both p k d h = ground (arith, has-insert p k both d, text_eq.beq_iff p k)

request_write-IsValid :
    (now : ℕ) (c : Command) (p : Text) (s : Secretary)
    → IsValid s
    → IsValid (request_write now c p s)
unfolding request_write
request_write-IsValid now c p s v = elim (Bool-cases (has p s.commands)) [
  | inl known ↦
      rw known
        (record { nodup = v.nodup; same = λ k. has-upgrade c p k s.commands known ∙ v.same k })
  | inr new ↦ rw new (record {
    nodup = append_one-NodupKeys p now s.buffer (sym (v.same p) ∙ new) v.nodup;
    same = λ k. rw (has-insert p k c s.commands, has-append_one k p now s.buffer, v.same k) refl;
  })
]

-- Every message of the web queue keeps the packages of the buffer distinct, and the same as those
-- that have a command.
pub handle_input-IsValid :
    {D : Type 0} (now : ℕ) (r : WebRequest D) (s : Secretary)
    → IsValid s
    → IsValid (handle_input now r s).0
unfolding handle_input
handle_input-IsValid now (home d) s v = v
handle_input-IsValid now (search d) s v = v
handle_input-IsValid now (log d) s v = v
handle_input-IsValid now (delete_package p) s v = expunge-IsValid p s v
handle_input-IsValid now (delete_version p version) s v = expunge-IsValid p s v
handle_input-IsValid now (write c p) s v = request_write-IsValid now c p s v
