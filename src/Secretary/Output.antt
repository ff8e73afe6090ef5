-- ===== src/Secretary/Output.antt =====
-- What TheSecretary passes on to TheScribe, and when.
use piwheels.Prelude.{
  ℕ, ◌-◌, list_eq, nat_eq, ◌≡◌, refl, ap, true, false, some, List, [], ◌∷◌, ◌++◌, Text, ltb, arith,
  Bool-cases, Option-cases, inl, inr, All, map, is_some,
}
use piwheels.Dict.{Dict, lookup, has, remove, keys}
use piwheels.Dict.Laws.{has-remove, has-lookup, lookup-remove}
use piwheels.Result.{ok}
use piwheels.Secretary.{Command, Secretary, Sent, send_due, handle_output}
use piwheels.Secretary.Buffer.{text_eq, Matches, IsValid}

abbrev pub IsDue : ℕ → ℕ → Text × ℕ → Type 0
IsDue now timeout (p, at) = ltb timeout (now - at) ≡ true

-- The oldest task is not due.
abbrev pub Waits : ℕ → ℕ → Dict Text ℕ → Type 0
Waits now timeout [] = Unit
Waits now timeout ((p, at) ∷ b) = ltb timeout (now - at) ≡ false

-- The tasks of `front` were due and are sent, in order, each with its command; `rest` waits.
pub record Passes (now timeout : ℕ) (buffer : Dict Text ℕ) (commands : Dict Text Command)
    (rest : Dict Text ℕ) (left : Dict Text Command) (sent : List (Command × Text)) : Type 0 where
  pub front : Dict Text ℕ
  pub split : buffer ≡ front ++ rest
  pub due : All (IsDue now timeout) front
  pub in_order : keys front ≡ map (λ m. m.1) sent
  pub with_command : All (λ m. lookup m.1 commands ≡ some m.0) sent
  pub waits : Waits now timeout rest
  pub valid : Matches rest left
  pub kept : (p : Text) (c : Command) → lookup p left ≡ some c → lookup p commands ≡ some c

lookup-remove-some :
    (p q : Text) (c : Command) (d : Dict Text Command)
    → lookup q (remove p d) ≡ some c
    → lookup q d ≡ some c
lookup-remove-some p q c d h = ground (arith, lookup-remove p q d)

All-remove-some :
    (p : Text) (d : Dict Text Command) (sent : List (Command × Text))
    → All (λ m. lookup m.1 (remove p d) ≡ some m.0) sent
    → All (λ m. lookup m.1 d ≡ some m.0) sent
All-remove-some p d [] h = tt
All-remove-some p d ((c, q) ∷ sent) h =
    (lookup-remove-some p q c d h.0, All-remove-some p d sent h.1)

Matches-tail :
    (p : Text) (at : ℕ) (buffer : Dict Text ℕ) (commands : Dict Text Command)
    → Matches ((p, at) ∷ buffer) commands
    → Matches buffer (remove p commands)
unfolding has
Matches-tail p at buffer commands v = record {
  nodup = v.nodup.1;
  same = λ k. ground (arith, has-remove p k commands, v.same k, v.nodup.0, text_eq.beq_iff p k);
}

has_command :
    (p : Text) (at : ℕ) (buffer : Dict Text ℕ) (commands : Dict Text Command)
    → Matches ((p, at) ∷ buffer) commands
    → is_some (lookup p commands) ≡ true
unfolding has
has_command p at buffer commands v =
    ground (arith, has-lookup p commands, v.same p, text_eq.beq_iff p p)

abbrev Sends : ℕ → ℕ → Dict Text ℕ → Dict Text Command → Type 0
Sends now timeout buffer commands =
    (r : Sent) × (send_due now timeout buffer commands ≡ ok r)
    × Passes now timeout buffer commands r.buffer r.commands r.sent

send_due-Sends :
    (now timeout : ℕ) (buffer : Dict Text ℕ) (commands : Dict Text Command)
    → Matches buffer commands
    → Sends now timeout buffer commands
unfolding send_due
send_due-Sends now timeout [] commands v = (
  _,
  refl,
  record {
    front = [];
    split = refl;
    due = tt;
    in_order = refl;
    with_command = tt;
    waits = tt;
    valid = v;
    kept = λ p c h. h;
  },
)
send_due-Sends now timeout ((p, at) ∷ buffer) commands v =
    elim (Bool-cases (ltb timeout (now - at))) [
      | inl due ↦
          let (r, e, w) =
            send_due-Sends now timeout buffer (remove p commands)
              (Matches-tail p at buffer commands v) in
          elim (Option-cases (lookup p commands)) [
            | inl miss ↦ absurd (ground (arith, has_command p at buffer commands v))
            | inr (c, found) ↦ (
              record r { sent = (c, p) ∷ r.sent },
              rw (due, found, e),
              record {
                front = (p, at) ∷ w.front;
                split = ap (λ b. (p, at) ∷ b) w.split;
                due = (due, w.due);
                in_order = ap (λ ps. p ∷ ps) w.in_order;
                with_command = (found, All-remove-some p commands r.sent w.with_command);
                waits = w.waits;
                valid = w.valid;
                kept = λ q d h. lookup-remove-some p q d commands (w.kept q d h);
              },
            )
          ]
      | inr early ↦ (
        record { buffer = (p, at) ∷ buffer; commands = commands; sent = [] },
        rw early,
        record {
          front = [];
          split = refl;
          due = tt;
          in_order = refl;
          with_command = tt;
          waits = early;
          valid = v;
          kept = λ q c h. h;
        },
      )
    ]

-- A run of `handle_output` of a secretary that is not paused, and whose buffer is valid, never misses
-- a command, so it does not end the task. What it sends are the tasks of a front part of the buffer,
-- all of them overdue, in the order of the buffer and each with its own command; the oldest of the
-- others is not overdue, and the others stay, with their commands, in a buffer that is still valid.
pub handle_output-Passes :
    (now : ℕ) (s : Secretary)
    → IsValid s
    → s.paused ≡ false
    → (s' : Secretary) × (sent : List (Command × Text)) × (handle_output now s ≡ ok (s', sent))
      × Passes now s.timeout s.buffer s.commands s'.buffer s'.commands sent
unfolding handle_output
handle_output-Passes now s v on =
    let (r, e, w) = send_due-Sends now s.timeout s.buffer s.commands v in
    (record s { buffer = r.buffer; commands = r.commands }, r.sent, rw (on, e), w)
