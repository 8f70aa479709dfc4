-- ===== src/Action/Mex/Swaps.antt =====
-- A multi swap that names a token that is not found.
use mx_api_service.Base.{
  ℕ, zero, suc, ◌+◌, ◌*◌, ◌<◌, ◌≡◌, refl, ap, ◌∙◌, append_assoc, append-nil, String, none, some,
  List, [], ◌∷◌, ◌++◌, map, length, get_elem?, arith,
}
use mx_api_service.Action.{returned}
use mx_api_service.Action.Arguments.{TokenTransferProperties, Transfer, Metadata, Calls}
use mx_api_service.Action.Mex.Settings.{get_transfers}
use mx_api_service.Action.Mex.Pair.{
  push_onto, push_expected, first_sent, read_swaps, number_of_swaps, get_multi_swap_action,
}

-- A token with an amount.
abbrev pub Expected : Type 0
Expected = TokenTransferProperties × ℕ

abbrev pub transfer_of : Expected → Transfer
transfer_of (q, v) = record { properties = some q; value = v }

unfoldable pub push_all : Metadata → List Expected → Metadata
unfolding push_expected
push_all m [] = m
push_all m ((q, v) ∷ qs) = push_all (push_expected m q v) qs

module _ (c : Calls) (args : List String) where
  -- The two arguments that the swap `i` reads.
  abbrev Reads : ℕ → String → ℕ → Type 0
  Reads i identifier v =
      (c.hex_to_string (get_elem? args (i * 4 + 2)) ≡ some identifier)
      × (c.hex_to_big_int (get_elem? args (i * 4 + 3)) ≡ some v)

  -- The swaps from `i` on name the tokens, with the amounts, and the one after them names a token
  -- that is not found.
  abbrev pub FailsAfter : ℕ → List Expected → Type 0
  FailsAfter i [] =
      (identifier : String) × (v : ℕ) × Reads i identifier v
      × (c.token_properties identifier ≡ returned none)
  FailsAfter i ((q, v) ∷ qs) =
      ((identifier : String) × Reads i identifier v
        × (c.token_properties identifier ≡ returned (some q)))
      × FailsAfter (i + 1) qs

module _ (c : Calls) where
  read_swaps-push_all :
      (qs : List Expected) (n i : ℕ) (m : Metadata)
      → length qs < n
      → FailsAfter c m.function_args i qs
      → read_swaps c n i m ≡ returned (none, push_all m qs)
  unfolding read_swaps push_all push_expected
  read_swaps-push_all qs zero i m h k = absurd (omega arith)
  read_swaps-push_all [] (suc n) i m h (identifier, v, (t, b), u) = rw (t, b, u) refl
  read_swaps-push_all ((q, v) ∷ qs) (suc n) i m h ((identifier, (t, b), f), k) =
      rw (t, b, f, read_swaps-push_all qs n (i + 1) (push_expected m q v) (omega arith) k) refl

  -- The tokens that were found before the one that is not stay on the transfers of the metadata,
  -- though no action is recognized.
  pub get_multi_swap_action-push_all :
      (m : Metadata) (qs : List Expected) (sent : Expected)
      → first_sent (get_transfers m) ≡ some sent
      → length qs < number_of_swaps m.function_args
      → FailsAfter c m.function_args 0 qs
      → get_multi_swap_action c m ≡ returned (none, push_all m qs)
  unfolding get_multi_swap_action
  get_multi_swap_action-push_all m qs (p, v) e h k =
      rw
        (get_multi_swap_action, e, read_swaps-push_all qs (number_of_swaps m.function_args) 0 m h k)
        refl

pub transfers-push_all :
    (qs : List Expected) (m : Metadata) (ts : List Transfer)
    → m.transfers ≡ some ts
    → (let m' = push_all m qs in m'.transfers) ≡ some (ts ++ map transfer_of qs)
unfolding push_all push_expected
transfers-push_all [] m ts e = rw (append-nil ts) e
transfers-push_all ((q, v) ∷ qs) m ts e =
    transfers-push_all qs (push_expected m q v) (ts ++ transfer_of (q, v) ∷ [])
      (ap (λ o. push_onto o (transfer_of (q, v))) e)
    ∙ ap some (append_assoc ts (transfer_of (q, v) ∷ []) (map transfer_of qs))
