-- ===== src/Fast/Session.antt =====
-- fast_session_recv, fast_session_send and fast_session_reset of lib/proto/fast_session.c and fast_message_send
-- of lib/proto/fast_message.c, for a session on a socket. What io_recv and sendmsg do is an argument.
use libtrading.Base.{
  ℕ, zero, suc, Bool, false, List, [], ◌∷◌, ◌++◌, Option, none, some, leb, ◌==◌, if◌then◌else◌,
}
use libtrading.Buffer.{Buffer, buffer_remaining, buffer_compact, buffer_reset}
use libtrading.Fix.Session.{Reply, buffer_recv, buffer_to_iovec}
use libtrading.Fast.Text.{Chars}
use libtrading.Fast.Message.{Message}
use libtrading.Fast.Message.Decode.{Session, Answer, fast_message_decode}
use libtrading.Fast.Message.Encode.{fast_message_encode}
use libtrading.Fast.Message.Reset.{fast_message_reset}

abbrev pub fast_message_max_size : ℕ
fast_message_max_size = 2048

-- `if (size <= FAST_MESSAGE_MAX_SIZE) buffer_compact(buffer)`
abbrev pub with_room : Buffer → Buffer
with_room b = if leb (buffer_remaining b) fast_message_max_size then buffer_compact b else b

-- Behind `self->recv`: `nr` is none where it is negative.
abbrev pub behind_socket : Chars → Session → Option ℕ × Buffer → Answer
behind_socket scratch self (none, b) = (none, record self { rx_buffer = b })
behind_socket scratch self (some nr, b) =
    let self' : Session = record self { rx_buffer = b } in
    if nr == 0 then (none, self') else fast_message_decode scratch self'

-- Behind the first fast_message_decode.
abbrev pub or_recv : Chars → (ℕ → Reply) → Answer → Answer
or_recv scratch io_recv (some i, self) = (some i, self)
or_recv scratch io_recv (none, self) =
    behind_socket scratch self
      (buffer_recv io_recv (with_room self.rx_buffer) fast_message_max_size)

unfoldable pub fast_session_recv : Chars → (ℕ → Reply) → Session → Answer
unfolding fast_message_decode
fast_session_recv scratch io_recv self = or_recv scratch io_recv (fast_message_decode scratch self)

-- Whether 0 is returned, the session, the message, and the bytes that are given to sendmsg.
pub record MessageSend : Type 0 where
  pub success : Bool
  pub session : Session
  pub msg : Message
  pub wire : Option (List ℕ)

-- `sendmsg` says whether its result is not negative.
abbrev pub fast_message_send : (List ℕ → Bool) → Message → Session → MessageSend
fast_message_send sendmsg m self =
    let out = fast_message_encode self.tx_pmap_buffer self.tx_message_buffer m in
    let wire = buffer_to_iovec out.pmap_buf ++ buffer_to_iovec out.msg_buf in
    let self' : Session = record self {
      tx_pmap_buffer = out.pmap_buf;
      tx_message_buffer = out.msg_buf;
    } in
    if out.success
    then record { success = sendmsg wire; session = self'; msg = out.msg; wire = some wire }
    else record { success = false; session = self'; msg = out.msg; wire = none }

unfoldable pub fast_session_send : (List ℕ → Bool) → Session → Message → MessageSend
fast_session_send sendmsg self m = fast_message_send sendmsg m (record self {
  tx_pmap_buffer = buffer_reset self.tx_pmap_buffer;
  tx_message_buffer = buffer_reset self.tx_message_buffer;
})

-- The first `n` messages.
abbrev pub reset_messages : ℕ → List Message → List Message
reset_messages zero ms = ms
reset_messages (suc n) [] = []
reset_messages (suc n) (m ∷ ms) = fast_message_reset m ∷ reset_messages n ms

unfoldable pub fast_session_reset : Session → Session
unfolding fast_message_reset
fast_session_reset self = record self {
  rx_messages = reset_messages self.nr_messages self.rx_messages;
}
