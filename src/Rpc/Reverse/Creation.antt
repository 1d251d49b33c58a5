-- ===== src/Rpc/Reverse/Creation.antt =====
-- internal/rpcserver/router.go, `createReverseSwap`: the checks of the answer of the server, and the whole
-- request.
use lightz_client.Base.{
  ℕ, String, Bool, true, false, ◌&&◌, not, if◌then◌else◌, is_some, Option, none, some, List,
}
use lightz_client.Float.{Float64}
use lightz_client.Lightz.Types.{Pair, SwapType, SwapState, Error, errorf}
use lightz_client.Lightz.Events.{swap_created}
use lightz_client.Lightz.SwapTree.{SwapTree, init_tree, check_tree}
use lightz_client.Database.ReverseSwap.{ReverseSwap}
use lightz_client.Nursery.Amounts.{nursery_check_amounts}
use lightz_client.Rpc.Request.{Request, pure, require, give, need, ◌>>=◌, ◌>>◌}
use lightz_client.Rpc.Reverse.{
  PairInfo, CreateReverseSwapRequest, Proposal, SerializedTree, Response, Created, ServerEnv,
  Server, parse_pair, is_admin, require_tenant_id, pays_externally, returns_immediately,
  deserialize, check_payment_hash, invoice_msat, await_updates, Destination,
}
use lightz_client.Rpc.Reverse.Steps.{
  new_keys, accept_pair, check_hint, choose_destination, send_proposal, parse_chan_ids,
  check_address, insert_row, register_reverse_swap, blinding_of,
}

-- What is known once the server has answered: the request and its pair, who pays, our preimage, our key
-- and the server's, the service fee, and the channels.
pub record Draft : Type 0 where
  pub request : CreateReverseSwapRequest
  pub pair : Pair
  pub external : Bool
  pub is_auto : Bool
  pub preimage : String
  pub key : String
  pub their_key : String
  pub percentage : Float64
  pub chan_ids : List ℕ
  pub destination : Destination
  pub response : Response

module _ (env : ServerEnv) where
  open env use {reverse, scripts}

  unfoldable pub swap_of : Draft → SwapTree → ℕ → ReverseSwap
  unfolding require_tenant_id
  swap_of d tree invoice_amount = record {
    id = d.response.id;
    pair = d.pair;
    chan_ids = d.chan_ids;
    state = SwapState.pending;
    error = "";
    created_at = 0;
    paid_at = 0;
    status = swap_created;
    accept_zero_conf = d.request.accept_zero_conf;
    private_key = d.key;
    refund_pub_key = d.their_key;
    swap_tree = env.format_tree tree;
    preimage = d.preimage;
    redeem_script = "";
    invoice = d.response.invoice;
    claim_address = d.destination.claim_address;
    onchain_amount = d.response.onchain_amount;
    invoice_amount = invoice_amount;
    timeout_block_height = d.response.timeout_block_height;
    lockup_transaction_id = "";
    claim_transaction_id = "";
    blinding_key = blinding_of env d.pair d.response;
    is_auto = d.is_auto;
    routing_fee_msat = none;
    service_fee = none;
    service_fee_percent = d.percentage;
    onchain_fee = none;
    external_pay = d.external;
    wallet_id = d.destination.wallet_id;
    tenant_id = require_tenant_id env.tenant_id;
    routing_fee_limit_ppm = d.request.routing_fee_limit_ppm;
  }

  -- The swap is stored and handed to the nursery.
  unfoldable pub store_swap : ReverseSwap → Request Server Unit
  store_swap swap = insert_row env swap >> register_reverse_swap env swap

  -- The checks of what the server answered, in their order, with the tree as the server sent it.
  unfoldable pub vet : Draft → SwapTree → Request Server Unit
  vet d sent = do
    let preimage_hash = reverse.libraries.sha256 d.preimage
    let blinding_key = blinding_of env d.pair d.response
    tree ← give (init_tree d.pair.to true (env.public_key d.key) d.their_key sent)
    require (check_tree scripts tree SwapType.reverse d.response.timeout_block_height preimage_hash)
    require (check_address env tree blinding_key d.response.lockup_address)
    require (
        nursery_check_amounts reverse.nursery SwapType.reverse d.pair d.request.amount
          d.response.onchain_amount d.percentage)
    invoice ← give (env.decode_invoice d.response.invoice)
    require (check_payment_hash invoice preimage_hash)
    msat ← give (invoice_msat invoice)
    store_swap (swap_of d tree (reverse.libraries.to_sat msat))

  abbrev proposal :
      CreateReverseSwapRequest → Pair → PairInfo → String → String → Destination → Proposal
  proposal request pair accepted preimage key destination = record {
    pair = pair;
    pair_hash = accepted.hash;
    invoice_amount = request.amount;
    preimage_hash = reverse.libraries.sha256 preimage;
    claim_public_key = env.public_key key;
    address = destination.hint_address;
    address_signature = destination.hint_signature;
    referral_id = env.referral_id;
    description = request.description;
    description_hash = request.description_hash;
    invoice_expiry = request.invoice_expiry;
  }

  abbrev check_limit : CreateReverseSwapRequest → Bool → Option Error
  check_limit request external =
      if is_some request.routing_fee_limit_ppm && external
      then some (errorf "max routing fee ppm is not supported when using external pay")
      else none

  -- The client's node is for requests of the default tenant only.
  unfoldable pub lightning_available : Bool
  unfolding is_admin
  lightning_available = is_some reverse.lightning && is_admin env.tenant_id

  unfoldable pub waits : CreateReverseSwapRequest → (immediate : Bool) → Bool
  waits request immediate = not immediate && request.accept_zero_conf

  abbrev created_of : Response → Created
  created_of response = record {
    id = response.id;
    lockup_address = response.lockup_address;
    invoice = response.invoice;
    claim_transaction_id = none;
    routing_fee_msat = none;
  }

  unfoldable pub respond : Bool → Response → Request Server Created
  respond false response = pure (created_of response)
  respond true response = give (await_updates env.updates (created_of response))

  unfoldable pub conclude : Draft → SerializedTree → Request Server Response
  conclude d sent = do vet d (deserialize sent); pure d.response

  -- What follows the choice of a destination.
  unfoldable pub agree :
      CreateReverseSwapRequest
      → Bool
      → Bool
      → String
      → String
      → PairInfo
      → Destination
      → Request Server Response
  agree request external is_auto preimage key accepted destination = do
    let pair = parse_pair request.pair
    response ← send_proposal env (proposal request pair accepted preimage key destination)
    their_key ← give (env.parse_pub_key response.refund_public_key)
    require (check_limit request external)
    sent ← need response.swap_tree
    percentage ← need accepted.percentage
    chan_ids ← give (parse_chan_ids env request.chan_ids)
    conclude
        (record {
          request = request;
          pair = pair;
          external = external;
          is_auto = is_auto;
          preimage = preimage;
          key = key;
          their_key = their_key;
          percentage = percentage;
          chan_ids = chan_ids;
          destination = destination;
          response = response;
        })
        sent

  unfoldable pub create_reverse_swap : Bool → CreateReverseSwapRequest → Request Server Created
  create_reverse_swap is_auto request = do
    external ← give (pays_externally lightning_available request.external_pay)
    immediate ← give (returns_immediately external request.return_immediately)
    preimage ← give env.new_preimage
    key ← new_keys env
    accepted ← accept_pair env request.accepted_pair (parse_pair request.pair)
    require (check_hint env request external)
    destination ← choose_destination env request (parse_pair request.pair) key
    response ← agree request external is_auto preimage key accepted destination
    respond (waits request immediate) response
