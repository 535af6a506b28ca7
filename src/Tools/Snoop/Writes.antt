-- ===== src/Tools/Snoop/Writes.antt =====
-- The ATT write in a packet.
use ble_usage_meter.Common.{
  ℕ, zero, suc, ap, ◌+◌, ◌*◌, ◌/◌, ◌%◌, ◌≤◌, ◌<◌, ◌≡◌, refl, ◌∙◌, Bytes, [], ◌∷◌, ◌++◌, Bool, false,
  none, some, length, take, if◌then◌else◌, arith,
}
use ble_usage_meter.Tools.Snoop.{
  Opcode, opcode_of, payload_of, att_write, parse_att, parse_l2cap, parse_acl_att,
}

-- Two bytes, the lower one first.
abbrev pub two : ℕ → Bytes
two n = n % 256 ∷ (n / 256 % 256 ∷ [])

-- A packet that carries an ATT value on a connection, marked as a first, non-flushable fragment, with a length of the L2CAP frame of
-- its own: `connection` has 12 bits.
abbrev pub packet : ℕ → ℕ → Bytes → Bytes
packet connection l2cap_length value =
    2
    ∷ (two (connection + 8192)
        ++ (two (length value + 4) ++ (two l2cap_length ++ (two 4 ++ value))))

-- The value of a write request.
abbrev pub att_value : ℕ → ℕ → Bytes → Bytes
att_value opcode handle payload = opcode ∷ (two handle ++ payload)

little_two : (n : ℕ) → n < 65536 → n % 256 + n / 256 % 256 * 256 ≡ n
little_two n h = omega arith

take_all : (n : ℕ) (xs : Bytes) → length xs ≤ n → take n xs ≡ xs
take_all zero [] h = refl
take_all zero (x ∷ xs) h = absurd (omega arith)
take_all (suc n) [] h = refl
take_all (suc n) (x ∷ xs) h = ap (λ l. x ∷ l) (take_all n xs (omega arith))

parse_att-value :
    (opcode handle : ℕ) (payload : Bytes) (o : Opcode)
    → handle < 65536
    → opcode_of opcode ≡ some o
    → parse_att (att_value opcode handle payload)
      ≡ some (record { opcode = o; handle = handle; payload = payload_of o payload })
unfolding parse_att att_write
parse_att-value opcode handle payload o hh ho =
    ap (λ x. att_write x (handle % 256 + handle / 256 % 256 * 256) payload) ho
    ∙ ap (λ n. att_write (some o) n payload) (little_two handle hh)

parse_l2cap-value :
    (l2cap_length : ℕ) (value : Bytes)
    → length value ≤ l2cap_length
    → l2cap_length < 65536
    → parse_l2cap (two l2cap_length ++ (two 4 ++ value)) ≡ parse_att value
unfolding parse_l2cap
parse_l2cap-value l2cap_length value hl hs =
    rw (little_two l2cap_length hs, take_all l2cap_length value hl) refl

not_skipped :
    (skipped : Bool) (n : ℕ) (frame : Bytes)
    → skipped ≡ false
    → length frame ≤ n
    → (if skipped then none else parse_l2cap (take n frame)) ≡ parse_l2cap frame
not_skipped skipped n frame h k = rw (h, take_all n frame k) refl

-- In a packet that is marked as a first, non-flushable fragment (PB=0b10), on a connection of 12 bits,
-- with an attribute handle of 16 bits and lengths that fit into theirs: an ATT write that is whole is
-- read as its opcode, handle and payload, less the offset of a prepared write. Such a packet whose
-- L2CAP frame is longer than what it holds is read in the same way: of a write that continues in
-- another packet, what is there of the payload is taken for the whole.
pub parse_acl_att-packet :
    (connection l2cap_length opcode handle : ℕ) (payload : Bytes) (o : Opcode)
    → connection < 4096
    → length payload + 7 < 65536
    → length payload + 3 ≤ l2cap_length
    → l2cap_length < 65536
    → handle < 65536
    → opcode_of opcode ≡ some o
    → parse_acl_att (packet connection l2cap_length (att_value opcode handle payload))
      ≡ some (record { opcode = o; handle = handle; payload = payload_of o payload })
unfolding parse_acl_att
parse_acl_att-packet connection l2cap_length opcode handle payload o hc hp hl hs hh ho =
    not_skipped _ _ _ (ground arith) (omega arith)
    ∙ parse_l2cap-value l2cap_length (att_value opcode handle payload) (omega arith) hs
    ∙ parse_att-value opcode handle payload o hh ho
