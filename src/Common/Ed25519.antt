-- ===== src/Common/Ed25519.antt =====
-- What the code relies on of `cryptography`'s Ed25519, which it calls and does not contain. Keys are
-- their raw bytes. A scheme is a parameter of every definition that signs or verifies.
use ble_usage_meter.Common.{
  ◌≡◌, refl, Bytes, Bool, true, [], ◌∷◌, ◌++◌, All, All-append, length, str_eq, str_eq_iff,
}
use ble_usage_meter.Common.BigEndian.{
  IsByte, big_endian, read_big_endian, length-big_endian, big_endian-IsByte,
}

pub record Ed25519 : Type 0 where
  -- `private_key.public_key().public_bytes(Raw, Raw)`
  pub public_of : Bytes → Bytes
  pub sign : Bytes → Bytes → Bytes
  -- `Ed25519PublicKey.from_public_bytes(key).verify(signature, message)` does not raise.
  pub accepts : Bytes → Bytes → Bytes → Bool
  pub length-public_of : (key : Bytes) → length (public_of key) ≡ 32
  pub public_of-IsByte : (key : Bytes) → All IsByte (public_of key)
  pub sign-IsByte : (key message : Bytes) → All IsByte message → All IsByte (sign key message)
  -- A signature by a key is accepted under the public half of that key.
  pub sign_accepts :
      (key message : Bytes) → accepts (public_of key) (sign key message) message ≡ true

-- A signature stands for one message: stronger than the scheme, which only makes a second one
-- infeasible to find.
abbrev pub BindsMessage : Ed25519 → Type 0
BindsMessage e =
    (key signature m n : Bytes)
    → e.accepts key signature m ≡ true
    → e.accepts key signature n ≡ true
    → m ≡ n

abbrev pub toy_public : Bytes → Bytes
toy_public key = big_endian 32 (read_big_endian key)

pub toy_accepts :
    (key message : Bytes) → str_eq (toy_public key ++ message) (toy_public key ++ message) ≡ true
toy_accepts key message = (str_eq_iff _ _).1 refl

-- A scheme with these laws: the signature is the public key and the message.
abbrev pub toy : Ed25519
toy = record {
  public_of = toy_public;
  sign = λ key message. toy_public key ++ message;
  accepts = λ key signature message. str_eq signature (key ++ message);
  length-public_of = λ key. length-big_endian 32 (read_big_endian key);
  public_of-IsByte = λ key. big_endian-IsByte 32 (read_big_endian key);
  sign-IsByte = λ key message h.
      All-append IsByte (toy_public key) message (big_endian-IsByte 32 (read_big_endian key)) h;
  sign_accepts = toy_accepts;
}

append_cancel : (xs : Bytes) {ys zs : Bytes} → xs ++ ys ≡ xs ++ zs → ys ≡ zs
append_cancel [] h = h
append_cancel (x ∷ xs) h = append_cancel xs (cc)

pub toy-BindsMessage : BindsMessage toy
toy-BindsMessage key signature m n hm hn =
    append_cancel key
      (cc ((str_eq_iff signature (key ++ m)).0 hm, (str_eq_iff signature (key ++ n)).0 hn))
