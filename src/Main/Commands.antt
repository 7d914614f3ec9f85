-- ===== src/Main/Commands.antt =====
-- The command lines that the usage texts of src/main.cpp show are understood.
use mathlib.Core.List.{append-nil}
use file_hop_z.Base.{
  ℕ, ◌≤◌, ◌≡◌, refl, sym, some, ap, ◌∙◌, Bool, false, List, [], ◌∷◌, if◌then◌else◌, length, ltb,
  arith,
}
use file_hop_z.Base.Bytes.{Bytes, codes}
use file_hop_z.Builder.Decimal.{to_string}
use file_hop_z.Disk.{same_name}
use file_hop_z.Main.{
  sends, receives, misses_input, read_port, sender_command, receiver_command, command,
}
use file_hop_z.Main.Port.{read_port-to_string}

enough : (n m : ℕ) → n ≤ m → ltb m n ≡ false
enough n m h = ground arith

-- The command lines of the usage texts, with a decimal port of 16 bits, are understood whatever
-- follows them: "send" with an address, the port and a path that exists sends that path there,
-- "send" with a path that does not exist is told so, and "recv" with the port and a directory
-- receives.
pub command_usage :
    (exists : Bytes → Bool) (program address path : Bytes) (port : ℕ) (more : List Bytes)
    → port ≤ 65535
    → (command exists (program ∷ (codes "send" ∷ (address ∷ (to_string port ∷ (path ∷ more)))))
        ≡ (if exists path then sends address port path else misses_input))
      × (command exists (program ∷ (codes "recv" ∷ (to_string port ∷ (path ∷ more))))
          ≡ receives port path)
unfolding command sender_command receiver_command same_name
command_usage exists program address path port more small =
    let read : read_port (to_string port) ≡ some port =
      ap read_port (sym (append-nil (to_string port))) ∙ read_port-to_string port [] small refl in
    (
      rw
          (
            enough 2
                (length (program ∷ (codes "send" ∷ (address ∷ (to_string port ∷ (path ∷ more))))))
                (omega arith),
            enough 5
                (length (program ∷ (codes "send" ∷ (address ∷ (to_string port ∷ (path ∷ more))))))
                (omega arith),
            read,
            sender_command,
          )
          refl,
      rw
          (
            enough 2 (length (program ∷ (codes "recv" ∷ (to_string port ∷ (path ∷ more)))))
                (omega arith),
            enough 4 (length (program ∷ (codes "recv" ∷ (to_string port ∷ (path ∷ more)))))
                (omega arith),
            read,
            receiver_command,
          )
          refl,
    )
