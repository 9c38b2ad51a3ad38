-- ===== src/Message/Tests.antt =====
-- Messages and ULIDs.
use minara_connect.Base.{◌≡◌, ◌↔◌, refl, some, All, Str, str, str_eq, ok, length}
use minara_connect.Message.{Message, from_wire_bytes, to_canonical_json, normalize_ulid, ulid_len}
use minara_connect.Message.Samples.{hello, hello-Built, to_vec, from_slice}
use minara_connect.Message.Ulid.{IsTaken, IsUlid, normalize_ulid_takes_iff}
use minara_connect.Message.Wire.{IsReceived, from_wire_bytes_iff, received_is_canonical}
use minara_connect.Message.Sent.{Built-is_received}

normalize_ulid_takes_iff_test :
    ((t : Str) × (normalize_ulid (str "01arz3ndektsv4rrffq69g5fil") ≡ ok t)) ↔ (
      (length (str "01arz3ndektsv4rrffq69g5fil") ≡ ulid_len)
      × All IsTaken (str "01arz3ndektsv4rrffq69g5fil"))
normalize_ulid_takes_iff_test = normalize_ulid_takes_iff (str "01arz3ndektsv4rrffq69g5fil")

normalize_ulid_test :
    normalize_ulid (str "01arz3ndektsv4rrffq69g5foL") ≡ ok (str "01ARZ3NDEKTSV4RRFFQ69G5F01")
unfolding normalize_ulid
normalize_ulid_test = refl

from_wire_bytes_iff_example :
    (from_wire_bytes from_slice (str "{m}") ≡ ok hello)
    ↔ ((p : Message) × (from_slice (str "{m}") ≡ some p) × IsReceived p hello)
from_wire_bytes_iff_example = from_wire_bytes_iff from_slice (str "{m}") hello

Built-is_received_example : from_wire_bytes from_slice (str "{m}") ≡ ok hello
unfolding to_canonical_json str_eq
Built-is_received_example =
    Built-is_received from_slice to_vec hello (str "{m}") hello-Built refl (λ e. refl)

hello_received : from_wire_bytes from_slice (str "{m}") ≡ ok hello
unfolding to_canonical_json str_eq
hello_received = Built-is_received from_slice to_vec hello (str "{m}") hello-Built refl (λ e. refl)

received_is_canonical_test : IsUlid hello.id × (from_wire_bytes from_slice (str "{m}") ≡ ok hello)
unfolding str_eq
received_is_canonical_test =
    received_is_canonical from_slice (str "{m}") (str "{m}") hello hello_received refl
