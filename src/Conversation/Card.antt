-- ===== src/Conversation/Card.antt =====
-- The card's side of ISO 7816-4 command chaining, independent of the code: frames with the chaining
-- bit are put together with the frame that ends the chain.
use libcanokey.Prelude.{
  ◌+◌, ◌==◌, Bool, true, false, ◌&&◌, List, [], ◌∷◌, ◌++◌, Option, none, some, if◌then◌else◌,
  is_empty,
}
use libcanokey.Apdu.{ExpectedLength, absent, exact, CommandApdu}
use libcanokey.Apdu.Iso7816.{Received, receive}
use libcanokey.Conversation.{is_chained}

abbrev is_absent : ExpectedLength → Bool
is_absent absent = true
is_absent (exact n) = false

-- A fragment has the class of the last frame with the chaining bit set, the same instruction and
-- parameters, and no Le.
abbrev pub continues : Received → Received → Bool
continues a b =
    (a.header.cla == b.header.cla + 16)
    && ((a.header.ins == b.header.ins)
        && ((a.header.p1 == b.header.p1) && ((a.header.p2 == b.header.p2) && is_absent a.le)))

abbrev pub joined : Received → Option Received → Option Received
joined a none = none
joined a (some b) = if continues a b then some (record b { body = a.body ++ b.body }) else none

abbrev pub put_together : Option Received → List CommandApdu → Option Received → Option Received
put_together none fs later = none
put_together (some a) fs later =
    if is_chained a.header.cla then joined a later else if is_empty fs then some a else none

unfoldable pub reassemble : List CommandApdu → Option Received
reassemble [] = none
reassemble (f ∷ fs) = put_together (receive f.bytes) fs (reassemble fs)
