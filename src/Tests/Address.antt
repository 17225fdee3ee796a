-- ===== src/Tests/Address.antt =====
-- The theorem on the check of an address (client/src/network/messageNet/connection.cpp) at a concrete
-- one.
use cloud_meeting_client.Client.Address.{validate_ip_port, split_dots, port_error}
use cloud_meeting_client.Client.Address.Numbers.{validate_ip_port_lem}
use cloud_meeting_client.Prelude.{Bytes, ◌∷◌, [], ◌≡◌}

abbrev home : Bytes
home = b'1' ∷ b'.' ∷ b'0' ∷ b'.' ∷ b'2' ∷ b'5' ∷ b'5' ∷ b'.' ∷ b'9' ∷ []

abbrev high_port : Bytes
high_port = b'6' ∷ b'5' ∷ b'5' ∷ b'3' ∷ b'6' ∷ []

validate_ip_port_lem_example : validate_ip_port home high_port ≡ port_error
unfolding split_dots
validate_ip_port_lem_example = validate_ip_port_lem home high_port
