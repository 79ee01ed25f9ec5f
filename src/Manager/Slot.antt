-- ===== src/Manager/Slot.antt =====
-- `resolveSetEndpointSlot`: where `SetEndpoint` puts an endpoint. The logs are left out.
use dubbo_go_pixiu.Prelude.{
  ℕ, zero, suc, ◌+◌, Bool, not, Option, none, some, List, [], ◌∷◌, ◌++◌, if◌then◌else◌,
}
use dubbo_go_pixiu.Prelude.Text.{Text, text_eq}
use dubbo_go_pixiu.Cluster.Endpoint.{LlmMeta, Endpoint, generate_endpoint_id}
use dubbo_go_pixiu.Manager.Assemble.{unique_id}
use dubbo_go_pixiu.Manager.Content.{endpoint_content_equal_for_set}

pub data SetEndpointAction : Type 0 where
  idempotent : SetEndpointAction
  replace_slot : ℕ → SetEndpointAction
  append_slot : SetEndpointAction

-- `setEndpointOutcome`; the index stands with the action that has one.
pub record SetEndpointOutcome : Type 0 where
  pub target_id : Text
  pub action : SetEndpointAction

-- The first endpoint that is not nil and passes the test, with its index from `i` on.
unfoldable pub find_slot : (Endpoint → Bool) → ℕ → List (Option Endpoint) → Option (ℕ × Endpoint)
find_slot p i [] = none
find_slot p i (none ∷ es) = find_slot p (i + 1) es
find_slot p i (some e ∷ es) = if p e then some (i, e) else find_slot p (i + 1) es

-- `existingEndpointIDs`.
unfoldable pub existing_endpoint_ids : List (Option Endpoint) → List Text
existing_endpoint_ids [] = []
existing_endpoint_ids (none ∷ es) = existing_endpoint_ids es
existing_endpoint_ids (some e ∷ es) =
    if text_eq e.id [] then existing_endpoint_ids es else e.id ∷ existing_endpoint_ids es

module _ (deep_equal : LlmMeta → LlmMeta → Bool) where
  -- `resolveSetEndpointSlotByID`.
  unfoldable pub resolve_set_endpoint_slot_by_id :
      Endpoint → List (Option Endpoint) → SetEndpointOutcome
  resolve_set_endpoint_slot_by_id incoming existing =
      elim (find_slot (λ e. text_eq e.id incoming.id) 0 existing) [
        | none ↦ record { target_id = incoming.id; action = append_slot }
        | some (i, e) ↦ record {
          target_id = incoming.id;
          action =
              if endpoint_content_equal_for_set deep_equal e incoming
              then idempotent
              else replace_slot i;
        }
      ]

  module _ (digest : Text → Text) (cluster_name : Text) where
    abbrev pub same_hash : Endpoint → Endpoint → Bool
    same_hash incoming e =
        text_eq (generate_endpoint_id digest cluster_name e)
          (generate_endpoint_id digest cluster_name incoming)

    -- `resolveSetEndpointSlotByHash`.
    unfoldable pub resolve_set_endpoint_slot_by_hash :
        Endpoint → List (Option Endpoint) → SetEndpointOutcome
    resolve_set_endpoint_slot_by_hash incoming existing =
        elim (find_slot (same_hash incoming) 0 existing) [
          | none ↦ record {
            target_id = generate_endpoint_id digest cluster_name incoming;
            action = append_slot;
          }
          | some (_, e) ↦
              if endpoint_content_equal_for_set deep_equal e incoming
              then record { target_id = e.id; action = idempotent }
              else record {
                target_id = unique_id digest cluster_name incoming (existing_endpoint_ids existing);
                action = append_slot;
              }
        ]

    -- `resolveSetEndpointSlot`.
    unfoldable pub resolve_set_endpoint_slot :
        Endpoint → List (Option Endpoint) → SetEndpointOutcome
    resolve_set_endpoint_slot incoming existing =
        if not (text_eq incoming.id [])
        then resolve_set_endpoint_slot_by_id incoming existing
        else resolve_set_endpoint_slot_by_hash incoming existing

-- `endpoints[i] = e`.
unfoldable pub set_at : ℕ → Endpoint → List (Option Endpoint) → List (Option Endpoint)
set_at i e [] = []
set_at zero e (_ ∷ es) = some e ∷ es
set_at (suc i) e (x ∷ es) = x ∷ set_at i e es

-- The endpoints of the configuration after the decision, before they are assembled.
unfoldable pub placed :
    SetEndpointAction → Endpoint → List (Option Endpoint) → List (Option Endpoint)
placed idempotent e es = es
placed (replace_slot i) e es = set_at i e es
placed append_slot e es = es ++ some e ∷ []
