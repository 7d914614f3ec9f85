-- ===== src/Main/Examples.antt =====
-- Command lines.
use file_hop_z.Base.{◌≡◌, refl, true, false, none, some, [], ◌∷◌, ◌++◌, if◌then◌else◌, arith}
use file_hop_z.Base.Bytes.{codes}
use file_hop_z.Builder.Decimal.{to_string, digits}
use file_hop_z.Disk.{same_name}
use file_hop_z.Main.{
  prints_sender_usage, refuses_mode, sends, receives, misses_input, leading_digits, digits_value,
  read_port, command,
}
use file_hop_z.Main.Port.{read_port-to_string}
use file_hop_z.Main.Commands.{command_usage}

to_string_value : to_string 8080 ≡ codes "8080"
unfolding to_string digits
to_string_value = refl

read_port_large : read_port (codes "65536") ≡ none
unfolding read_port leading_digits digits_value
read_port_large = refl

read_port_negative : read_port (codes "-1") ≡ none
unfolding read_port leading_digits
read_port_negative = refl

command_short :
    command (λ path. true) (codes "p" ∷ codes "send" ∷ codes "h" ∷ codes "80" ∷ [])
    ≡ prints_sender_usage
unfolding command same_name
command_short = refl

command_mode : command (λ path. true) (codes "p" ∷ codes "get" ∷ []) ≡ refuses_mode (codes "get")
unfolding command same_name
command_mode = refl

-- What follows the digits is not looked at.
read_port-to_string_example : read_port (to_string 80 ++ codes "x") ≡ some 80
read_port-to_string_example = read_port-to_string 80 (codes "x") (omega arith) refl

usage_understood :
    (command
        (λ path. false)
        (codes "p" ∷ (codes "send" ∷ (codes "h" ∷ (to_string 80 ∷ (codes "f" ∷ [])))))
      ≡ (if false then sends (codes "h") 80 (codes "f") else misses_input))
    × (command (λ path. false) (codes "p" ∷ (codes "recv" ∷ (to_string 80 ∷ (codes "f" ∷ []))))
        ≡ receives 80 (codes "f"))
usage_understood =
    command_usage (λ path. false) (codes "p") (codes "h") (codes "f") 80 [] (omega arith)
