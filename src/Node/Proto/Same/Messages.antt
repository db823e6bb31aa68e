-- ===== src/Node/Proto/Same/Messages.antt =====
-- Both programs read every document alike.
use jw_swarm.Common.{
  ◌≡◌, refl, ap, inl, inr, arith, Bool, true, false, Option-cases, String, Option, none, some,
  map_option, ◌==◌, if◌then◌else◌,
}
use jw_swarm.Float.{Floats}
use mathlib.Core.Path.{fun_ext}
use jw_swarm.Serde.{Tree, unit_variant, newtype, Values}
use jw_swarm.Proto as Fleet
use jw_swarm.Proto.Codec as FleetCodec
use jw_swarm.Node.Proto.{
  register, catalog_request, heartbeat, model_status, schedule_state, token_chunk, done, error,
  catalog_response, prompt_dispatch,
}
use jw_swarm.Node.Proto.Codec.{message_of, from_value}
use jw_swarm.Node.Proto.Same.{node_message}
use jw_swarm.Node.Proto.Same.Reading.{
  read_register_same, read_catalog_response_same, read_heartbeat_same, read_model_status_same,
  read_schedule_state_same, read_prompt_dispatch_same, read_token_chunk_same, read_done_same,
  read_proto_error_same,
}

unit_variant_same :
    (payload : Option Tree)
    → unit_variant catalog_request payload
      ≡ map_option node_message (unit_variant Fleet.catalog_request payload)
unfolding node_message
unit_variant_same payload = ground arith

newtype_same {ℓ κ μ ν} :
    {A : Type ℓ} {B : Type κ} {M : Type μ} {N : Type ν} {conv : B → A} {read : Tree → Option A}
    (read' : Tree → Option B) (make : A → M) (make' : B → N) (node : N → M)
    → ((b : B) → make (conv b) ≡ node (make' b))
    → ((t : Tree) → read t ≡ map_option conv (read' t))
    → (payload : Option Tree)
    → newtype make read payload ≡ map_option node (newtype make' read' payload)
newtype_same read' make make' node e h none = refl
newtype_same read' make make' node e h (some t) = elim (Option-cases (read' t)) [
  | inl p ↦ rw (h t, p) refl
  | inr (b, p) ↦ rw (h t, p) (ap some (e b))
]

if_same {ℓ κ} :
    {A : Type ℓ} {B : Type κ} (f : A → B) (b : Bool) {x y : A} {u v : B}
    → u ≡ f x
    → v ≡ f y
    → (if b then u else v) ≡ f (if b then x else y)
if_same f true p q = p
if_same f false p q = q

message_of_same :
    (fl : Floats) (values : Values) (tag : String) (payload : Option Tree)
    → message_of fl values tag payload
      ≡ map_option node_message (FleetCodec.message_of fl values tag payload)
unfolding message_of FleetCodec.message_of node_message
message_of_same fl values tag payload =
    if_same (map_option node_message) (tag == "Register")
      (newtype_same _ register Fleet.register node_message (λ x. refl) (read_register_same) payload)
      (if_same (map_option node_message) (tag == "CatalogRequest") (unit_variant_same payload) (
        if_same (map_option node_message) (tag == "Heartbeat")
          (newtype_same _ heartbeat Fleet.heartbeat node_message (λ x. refl)
            (read_heartbeat_same fl) payload)
          (if_same (map_option node_message) (tag == "ModelStatus")
            (newtype_same _ model_status Fleet.model_status node_message (λ x. refl)
              (read_model_status_same) payload)
            (if_same (map_option node_message) (tag == "ScheduleState")
              (newtype_same _ schedule_state Fleet.schedule_state node_message (λ x. refl)
                (read_schedule_state_same) payload)
              (if_same (map_option node_message) (tag == "TokenChunk")
                (newtype_same _ token_chunk Fleet.token_chunk node_message (λ x. refl)
                  (read_token_chunk_same) payload)
                (if_same (map_option node_message) (tag == "Done")
                  (newtype_same _ done Fleet.done node_message (λ x. refl) (read_done_same) payload)
                  (if_same (map_option node_message) (tag == "Error")
                    (newtype_same _ error Fleet.error node_message (λ x. refl)
                      (read_proto_error_same) payload)
                    (if_same (map_option node_message) (tag == "CatalogResponse")
                      (newtype_same _ catalog_response Fleet.catalog_response node_message
                        (λ x. refl) (read_catalog_response_same fl) payload)
                      (if_same (map_option node_message) (tag == "PromptDispatch")
                        (newtype_same _ prompt_dispatch Fleet.prompt_dispatch node_message
                          (λ x. refl) (read_prompt_dispatch_same values) payload)
                        (refl))))))))))

pub from_value_same :
    (fl : Floats) (values : Values) (t : Tree)
    → from_value fl values t ≡ map_option node_message (FleetCodec.from_value fl values t)
unfolding from_value FleetCodec.from_value
from_value_same fl values t =
    rw (fun_ext (λ tag. fun_ext (message_of_same fl values tag))) (ground arith)
