-- ===== src/Main.antt =====
-- src/main.cpp: the command line, up to the start of a sender or a receiver, and the exit code. What
-- the file system and a run of either say is an argument.
pub mod Port
pub mod Commands
mod Examples
use file_hop_z.Base.{
  ℕ, zero, suc, ◌+◌, ◌-◌, ◌*◌, Bool, true, false, ◌&&◌, Option, none, some, List, [], ◌∷◌, length,
  ltb, leb, if◌then◌else◌,
}
use file_hop_z.Base.Bytes.{Bytes, codes}
use file_hop_z.Errors.{BoostError, failed}
use file_hop_z.Disk.{same_name}

abbrev pub is_digit : ℕ → Bool
is_digit c = leb 48 c && leb c 57

-- The digits that a text begins with.
unfoldable pub leading_digits : Bytes → Bytes
leading_digits [] = []
leading_digits (c ∷ cs) = let rest = leading_digits cs in if is_digit c then c ∷ rest else []

-- The number that digits continue.
unfoldable pub digits_value : ℕ → Bytes → ℕ
digits_value acc [] = acc
digits_value acc (c ∷ cs) = digits_value (acc * 10 + (c - 48)) cs

abbrev pub port_of : Bytes → Option ℕ
port_of [] = none
port_of (c ∷ cs) =
    if leb (digits_value 0 (c ∷ cs)) 65535 then some (digits_value 0 (c ∷ cs)) else none

-- `std::from_chars` into an `unsigned short`, whose end of input `main` does not look at; `none` is
-- an error.
unfoldable pub read_port : Bytes → Option ℕ
read_port text = port_of (leading_digits text)

-- What `main` does with its arguments.
pub data Command : Type 0 where
  prints_usage : Command
  prints_sender_usage : Command
  prints_receiver_usage : Command
  refuses_port : Command
  misses_input : Command
  sends : Bytes → ℕ → Bytes → Command
  receives : ℕ → Bytes → Command
  refuses_mode : Bytes → Command

-- `argv[i]`
abbrev pub arg : ℕ → List Bytes → Bytes
arg i [] = []
arg zero (a ∷ rest) = a
arg (suc i) (a ∷ rest) = arg i rest

unfoldable pub sender_command : (Bytes → Bool) → List Bytes → Command
sender_command exists argv = elim (read_port (arg 3 argv)) [
  | none ↦ refuses_port
  | some port ↦ if exists (arg 4 argv) then sends (arg 2 argv) port (arg 4 argv) else misses_input
]

unfoldable pub receiver_command : List Bytes → Command
receiver_command argv = elim (read_port (arg 2 argv)) [
  | none ↦ refuses_port
  | some port ↦ receives port (arg 3 argv)
]

-- `main` up to the start; `exists` is what the file system says of the input.
unfoldable pub command : (Bytes → Bool) → List Bytes → Command
command exists argv =
    if ltb (length argv) 2
    then prints_usage
    else if same_name (arg 1 argv) (codes "send") && ltb (length argv) 5
    then prints_sender_usage
    else if same_name (arg 1 argv) (codes "recv") && ltb (length argv) 4
    then prints_receiver_usage
    else if same_name (arg 1 argv) (codes "send")
    then sender_command exists argv
    else if same_name (arg 1 argv) (codes "recv")
    then receiver_command argv
    else refuses_mode (arg 1 argv)

-- The exit code, by what a run of the sender or the receiver returned.
abbrev pub exit_code : (Command → BoostError) → Command → ℕ
exit_code run (sends address port path) = if failed (run (sends address port path)) then 1 else 0
exit_code run (receives port path) = if failed (run (receives port path)) then 1 else 0
exit_code run _ = 1
