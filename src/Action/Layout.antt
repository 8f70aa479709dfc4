-- ===== src/Action/Layout.antt =====
-- The arguments of a multi transfer (Action/Transfers): the form that the network gives them, what
-- is read from it, and what happens when some are missing.
use mx_api_service.Base.{
  ℕ, zero, suc, ◌*◌, ◌<◌, ◌≡◌, refl, String, Option, some, List, [], ◌∷◌, ◌++◌, All, length, Bool,
  true, text_comparable, option_comparable, arith, Option-cases, inl, inr, ==-true,
}
use mx_api_service.Action.{
  returned, thrown, Sdk, TransactionMetadata, TransactionMetadataTransfer, new_metadata,
}
use mx_api_service.Action.Transfers.{
  parse_value, transfer_query, push_transfer, read_transfers, inner_call,
  get_multi_transfer_metadata,
}

pub record LaidTransfer : Type 0 where
  pub identifier : String
  pub nonce : String
  pub raw : String
  pub amount : ℕ

-- Three arguments for each transfer.
abbrev pub arguments_of : List LaidTransfer → List String
arguments_of [] = []
arguments_of (t ∷ ts) = t.identifier ∷ t.nonce ∷ t.raw ∷ arguments_of ts

module _ {P : Type 0} (sdk : Sdk P) (apply_value : Bool) (timestamp : Option ℕ) where
  -- The raw value says the amount.
  abbrev pub IsLaid : LaidTransfer → Type 0
  IsLaid t = parse_value sdk t.raw ≡ some t.amount

  -- A transfer is kept if its token is known.
  abbrev pub known_transfers : List LaidTransfer → List (TransactionMetadataTransfer P)
  known_transfers [] = []
  known_transfers (t ∷ ts) =
      let query =
        transfer_query sdk apply_value timestamp (sdk.hex_to_string t.identifier) t.nonce
          t.amount in
      push_transfer sdk (sdk.transfer_properties query) t.amount (known_transfers ts)

  pub read_transfers-arguments_of :
      (ts : List LaidTransfer) (left : List String)
      → All IsLaid ts
      → read_transfers sdk apply_value timestamp (length ts) (arguments_of ts ++ left)
        ≡ returned (known_transfers ts, left)
  unfolding read_transfers
  read_transfers-arguments_of [] left h = refl
  read_transfers-arguments_of (t ∷ ts) left (h, hs) =
      rw (h, read_transfers-arguments_of ts left hs) refl

  pub read_transfers_short :
      (n : ℕ) (args : List String)
      → length args < n * 3
      → read_transfers sdk apply_value timestamp n args ≡ thrown
  unfolding read_transfers
  read_transfers_short zero args h = absurd (omega (arith, h))
  read_transfers_short (suc n) [] h = refl
  read_transfers_short (suc n) (a ∷ []) h = refl
  read_transfers_short (suc n) (a ∷ b ∷ []) h = refl
  read_transfers_short (suc n) (a ∷ b ∷ c ∷ args) h = elim (Option-cases (parse_value sdk c)) [
    | inl e ↦ rw (e) refl
    | inr (v, e) ↦ rw (e, read_transfers_short n args (omega (arith, h))) refl
  ]

-- A call of a wallet to itself that moves tokens.
pub record IsMultiTransfer {P : Type 0} (sdk : Sdk P) (m : TransactionMetadata P)
    (address count : String) (args : List String) (receiver : String) : Type 0 where
  pub to_itself : m.sender ≡ m.receiver
  pub called : m.function_name ≡ some "MultiESDTNFTTransfer"
  pub has_arguments : m.function_args ≡ address ∷ count ∷ args
  pub valid : sdk.is_valid_hex_address address ≡ true
  pub encoded : sdk.bech32_encode address ≡ some receiver

module _ {P : Type 0} (sdk : Sdk P) (m : TransactionMetadata P) (apply_value : Bool) where
  -- A multi transfer of a wallet to itself with a valid address, a count that is the number of its
  -- transfers, at least one, and raw values that say the amounts, is read as the transfers of known
  -- tokens in their order, from the sender to the address, with the rest of the arguments as the
  -- call that follows.
  pub get_multi_transfer_metadata-arguments_of :
      (address count receiver : String) (t : LaidTransfer) (ts : List LaidTransfer)
      (left : List String)
      → IsMultiTransfer sdk m address count (arguments_of (t ∷ ts) ++ left) receiver
      → sdk.hex_to_number count ≡ length (t ∷ ts)
      → All (IsLaid sdk apply_value m.timestamp) (t ∷ ts)
      → get_multi_transfer_metadata sdk m apply_value
        ≡ returned (
            some (
              inner_call sdk left (record (new_metadata P) {
                sender = m.sender;
                receiver = receiver;
                transfers = some (known_transfers sdk apply_value m.timestamp (t ∷ ts));
              })))
  unfolding get_multi_transfer_metadata
  get_multi_transfer_metadata-arguments_of address count receiver t ts left c n h =
      rw
        (
          ==-true c.to_itself,
          ==-true c.called,
          c.has_arguments,
          c.valid,
          c.encoded,
          n,
          read_transfers-arguments_of sdk apply_value m.timestamp (t ∷ ts) left h,
        )
        refl

  -- A multi transfer of a wallet to itself with a valid address and fewer arguments than three for
  -- each transfer that it announces, but at least one, is not passed over: reading it throws.
  pub get_multi_transfer_metadata_short :
      (address count receiver arg : String) (args : List String)
      → IsMultiTransfer sdk m address count (arg ∷ args) receiver
      → length (arg ∷ args) < sdk.hex_to_number count * 3
      → get_multi_transfer_metadata sdk m apply_value ≡ thrown
  unfolding get_multi_transfer_metadata
  get_multi_transfer_metadata_short address count receiver arg args c h =
      rw
        (
          ==-true c.to_itself,
          ==-true c.called,
          c.has_arguments,
          c.valid,
          c.encoded,
          read_transfers_short sdk apply_value m.timestamp (sdk.hex_to_number count) (arg ∷ args) h,
        )
        refl
