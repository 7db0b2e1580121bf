-- ===== src/Fix/Kind.antt =====
-- The message types of include/libtrading/proto/fix_message.h, their spelling fix_msg_types and
-- fix_msg_type_parse of lib/proto/fix_message.c.
use libtrading.Base.{
  ℕ, suc, arith, ◌+◌, ◌%◌, ◌≡◌, refl, false, ◌&&◌, List, [], ◌∷◌, ◌++◌, ◌==◌, if◌then◌else◌, ◌≢◌,
  All,
}
use libtrading.Fix.Scan.{soh}
use libtrading.Fix.Scan.Memory.{At}

-- `enum fix_msg_type`
pub data MsgType : Type 0 where
  heartbeat test_request resend_request reject sequence_reset logout execution_report logon
        new_order_single snapshot_refresh increment_refresh session_status security_status
        order_cancel_replace order_cancel_reject order_cancel_request order_mass_cancel_request
        order_mass_cancel_report quote_request security_definition_request new_order_cross
        mass_quote quote_cancel security_definition quote_acknowledgement order_mass_status_request
        order_mass_action_request order_mass_action_report unknown :
      MsgType

-- There is no entry at FIX_MSG_TYPE_UNKNOWN.
abbrev pub fix_msg_types : MsgType → List ℕ
fix_msg_types heartbeat = b'0' ∷ []
fix_msg_types test_request = b'1' ∷ []
fix_msg_types resend_request = b'2' ∷ []
fix_msg_types reject = b'3' ∷ []
fix_msg_types sequence_reset = b'4' ∷ []
fix_msg_types logout = b'5' ∷ []
fix_msg_types execution_report = b'8' ∷ []
fix_msg_types logon = b'A' ∷ []
fix_msg_types new_order_single = b'D' ∷ []
fix_msg_types snapshot_refresh = b'W' ∷ []
fix_msg_types increment_refresh = b'X' ∷ []
fix_msg_types session_status = b'h' ∷ []
fix_msg_types security_status = b'f' ∷ []
fix_msg_types order_cancel_replace = b'G' ∷ []
fix_msg_types order_cancel_reject = b'9' ∷ []
fix_msg_types order_cancel_request = b'F' ∷ []
fix_msg_types order_mass_cancel_request = b'q' ∷ []
fix_msg_types order_mass_cancel_report = b'r' ∷ []
fix_msg_types quote_request = b'R' ∷ []
fix_msg_types security_definition_request = b'c' ∷ []
fix_msg_types new_order_cross = b's' ∷ []
fix_msg_types mass_quote = b'i' ∷ []
fix_msg_types quote_cancel = b'Z' ∷ []
fix_msg_types security_definition = b'd' ∷ []
fix_msg_types quote_acknowledgement = b'b' ∷ []
fix_msg_types order_mass_status_request = b'A' ∷ b'F' ∷ []
fix_msg_types order_mass_action_request = b'C' ∷ b'A' ∷ []
fix_msg_types order_mass_action_report = b'B' ∷ b'Z' ∷ []
fix_msg_types unknown = []

-- The type of one character.
abbrev pub single : ℕ → MsgType
single c =
    if c == b'0'
    then heartbeat
    else if c == b'1'
    then test_request
    else if c == b'2'
    then resend_request
    else if c == b'3'
    then reject
    else if c == b'4'
    then sequence_reset
    else if c == b'5'
    then logout
    else if c == b'8'
    then execution_report
    else if c == b'9'
    then order_cancel_reject
    else if c == b'A'
    then logon
    else if c == b'D'
    then new_order_single
    else if c == b'F'
    then order_cancel_request
    else if c == b'G'
    then order_cancel_replace
    else if c == b'W'
    then snapshot_refresh
    else if c == b'X'
    then increment_refresh
    else if c == b'h'
    then session_status
    else if c == b'f'
    then security_status
    else if c == b'q'
    then order_mass_cancel_request
    else if c == b'r'
    then order_mass_cancel_report
    else if c == b'R'
    then quote_request
    else if c == b'c'
    then security_definition_request
    else if c == b's'
    then new_order_cross
    else if c == b'i'
    then mass_quote
    else if c == b'Z'
    then quote_cancel
    else if c == b'd'
    then security_definition
    else if c == b'b'
    then quote_acknowledgement
    else unknown

-- The types of two characters.
abbrev pub double : ℕ → ℕ → MsgType
double c d =
    if c == b'A' && d == b'F'
    then order_mass_status_request
    else if c == b'C' && d == b'A'
    then order_mass_action_request
    else if c == b'B' && d == b'Z'
    then order_mass_action_report
    else unknown

-- `s` is an address in the memory `f`.
unfoldable pub fix_msg_type_parse : (ℕ → ℕ) → ℕ → ℕ → MsgType
fix_msg_type_parse f s delim =
    let c = f s % 256 in
    let d = f (s + 1) % 256 in
    if d == delim then single c else if f (s + 2) % 256 == delim then double c d else unknown

one : (f : ℕ → ℕ) (s c : ℕ) → At f s (c ∷ soh ∷ []) → fix_msg_type_parse f s soh ≡ single c
unfolding fix_msg_type_parse
one f s c h = let next : s + 1 ≡ suc s = omega arith in rw (next, h.0, h.1.0) refl

two :
    (f : ℕ → ℕ) (s c d : ℕ)
    → (d == soh) ≡ false
    → At f s (c ∷ d ∷ soh ∷ [])
    → fix_msg_type_parse f s soh ≡ double c d
unfolding fix_msg_type_parse
two f s c d ne h =
    let next : s + 1 ≡ suc s = omega arith in
    let next' : s + 2 ≡ suc (suc s) = omega arith in rw (next, next', h.0, h.1.0, ne, h.1.1.0) refl

-- fix_msg_type_parse on the spelling of a type and a SOH behind it is that type.
pub fix_msg_type_parse-fix_msg_types :
    (t : MsgType) (f : ℕ → ℕ) (s : ℕ)
    → t ≢ unknown
    → At f s (fix_msg_types t ++ (soh ∷ []))
    → fix_msg_type_parse f s soh ≡ t
fix_msg_type_parse-fix_msg_types heartbeat f s ne h = one f s b'0' h
fix_msg_type_parse-fix_msg_types test_request f s ne h = one f s b'1' h
fix_msg_type_parse-fix_msg_types resend_request f s ne h = one f s b'2' h
fix_msg_type_parse-fix_msg_types reject f s ne h = one f s b'3' h
fix_msg_type_parse-fix_msg_types sequence_reset f s ne h = one f s b'4' h
fix_msg_type_parse-fix_msg_types logout f s ne h = one f s b'5' h
fix_msg_type_parse-fix_msg_types execution_report f s ne h = one f s b'8' h
fix_msg_type_parse-fix_msg_types logon f s ne h = one f s b'A' h
fix_msg_type_parse-fix_msg_types new_order_single f s ne h = one f s b'D' h
fix_msg_type_parse-fix_msg_types snapshot_refresh f s ne h = one f s b'W' h
fix_msg_type_parse-fix_msg_types increment_refresh f s ne h = one f s b'X' h
fix_msg_type_parse-fix_msg_types session_status f s ne h = one f s b'h' h
fix_msg_type_parse-fix_msg_types security_status f s ne h = one f s b'f' h
fix_msg_type_parse-fix_msg_types order_cancel_replace f s ne h = one f s b'G' h
fix_msg_type_parse-fix_msg_types order_cancel_reject f s ne h = one f s b'9' h
fix_msg_type_parse-fix_msg_types order_cancel_request f s ne h = one f s b'F' h
fix_msg_type_parse-fix_msg_types order_mass_cancel_request f s ne h = one f s b'q' h
fix_msg_type_parse-fix_msg_types order_mass_cancel_report f s ne h = one f s b'r' h
fix_msg_type_parse-fix_msg_types quote_request f s ne h = one f s b'R' h
fix_msg_type_parse-fix_msg_types security_definition_request f s ne h = one f s b'c' h
fix_msg_type_parse-fix_msg_types new_order_cross f s ne h = one f s b's' h
fix_msg_type_parse-fix_msg_types mass_quote f s ne h = one f s b'i' h
fix_msg_type_parse-fix_msg_types quote_cancel f s ne h = one f s b'Z' h
fix_msg_type_parse-fix_msg_types security_definition f s ne h = one f s b'd' h
fix_msg_type_parse-fix_msg_types quote_acknowledgement f s ne h = one f s b'b' h
fix_msg_type_parse-fix_msg_types order_mass_status_request f s ne h = two f s b'A' b'F' refl h
fix_msg_type_parse-fix_msg_types order_mass_action_request f s ne h = two f s b'C' b'A' refl h
fix_msg_type_parse-fix_msg_types order_mass_action_report f s ne h = two f s b'B' b'Z' refl h
fix_msg_type_parse-fix_msg_types unknown f s ne h = absurd (ne refl)

-- No spelling has a SOH.
pub fix_msg_types-IsValue : (t : MsgType) → All (λ c. c ≢ soh) (fix_msg_types t)
fix_msg_types-IsValue heartbeat = (omega arith, tt)
fix_msg_types-IsValue test_request = (omega arith, tt)
fix_msg_types-IsValue resend_request = (omega arith, tt)
fix_msg_types-IsValue reject = (omega arith, tt)
fix_msg_types-IsValue sequence_reset = (omega arith, tt)
fix_msg_types-IsValue logout = (omega arith, tt)
fix_msg_types-IsValue execution_report = (omega arith, tt)
fix_msg_types-IsValue logon = (omega arith, tt)
fix_msg_types-IsValue new_order_single = (omega arith, tt)
fix_msg_types-IsValue snapshot_refresh = (omega arith, tt)
fix_msg_types-IsValue increment_refresh = (omega arith, tt)
fix_msg_types-IsValue session_status = (omega arith, tt)
fix_msg_types-IsValue security_status = (omega arith, tt)
fix_msg_types-IsValue order_cancel_replace = (omega arith, tt)
fix_msg_types-IsValue order_cancel_reject = (omega arith, tt)
fix_msg_types-IsValue order_cancel_request = (omega arith, tt)
fix_msg_types-IsValue order_mass_cancel_request = (omega arith, tt)
fix_msg_types-IsValue order_mass_cancel_report = (omega arith, tt)
fix_msg_types-IsValue quote_request = (omega arith, tt)
fix_msg_types-IsValue security_definition_request = (omega arith, tt)
fix_msg_types-IsValue new_order_cross = (omega arith, tt)
fix_msg_types-IsValue mass_quote = (omega arith, tt)
fix_msg_types-IsValue quote_cancel = (omega arith, tt)
fix_msg_types-IsValue security_definition = (omega arith, tt)
fix_msg_types-IsValue quote_acknowledgement = (omega arith, tt)
fix_msg_types-IsValue order_mass_status_request = (omega arith, (omega arith, tt))
fix_msg_types-IsValue order_mass_action_request = (omega arith, (omega arith, tt))
fix_msg_types-IsValue order_mass_action_report = (omega arith, (omega arith, tt))
fix_msg_types-IsValue unknown = tt
