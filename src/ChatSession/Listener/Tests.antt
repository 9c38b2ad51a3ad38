-- ===== src/ChatSession/Listener/Tests.antt =====
-- What p2 hears from p1.
use minara_connect.Base.{◌≡◌, true, List, [], ◌∷◌, ◌++◌, none, All}
use minara_connect.Message.Samples.{to_vec, from_slice}
use minara_connect.RateLimit.{new}
use minara_connect.LogIo.{read_since}
use minara_connect.LogIo.Lines.{IsLog}
use minara_connect.ChatSession.Samples.{bob, listener, heard, heard-hello}
use minara_connect.LogIo.Samples.{broken_log, broken_log-IsLog}
use minara_connect.ChatSession.Listener.{Arrival, Listener, listen}
use minara_connect.ChatSession.Listener.Kept.{kept, mentions_in, IsForeign}
use minara_connect.ChatSession.Listener.Keeps.{AreEncoded, listen_lem}
use minara_connect.ChatSession.Listener.Wake.{IsWake, listen-IsWake}

abbrev arrivals : List Arrival
arrivals = heard ∷ []

arrivals-AreEncoded : AreEncoded from_slice to_vec arrivals
arrivals-AreEncoded = (heard-hello, tt)

abbrev after : Listener
after = listen from_slice to_vec (λ m. true) (λ m. true) bob arrivals listener

listen_lem_example :
    IsLog after.log
    × (read_since from_slice after.log none
        ≡ read_since from_slice broken_log none
          ++ kept from_slice (λ m. true) bob.our_pubkey arrivals new)
    × (after.mentions.tx
        ≡ [] ++ mentions_in bob (kept from_slice (λ m. true) bob.our_pubkey arrivals new))
    × All (IsForeign bob.our_pubkey) (kept from_slice (λ m. true) bob.our_pubkey arrivals new)
listen_lem_example =
    listen_lem from_slice to_vec (λ m. true) (λ m. true) bob arrivals listener broken_log-IsLog
      arrivals-AreEncoded

listen-IsWake_example : All (IsWake bob) after.mentions.tx
listen-IsWake_example =
    listen-IsWake from_slice to_vec (λ m. true) (λ m. true) bob arrivals listener broken_log-IsLog
      arrivals-AreEncoded tt
