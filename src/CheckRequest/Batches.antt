-- ===== src/CheckRequest/Batches.antt =====
-- What check_request promises of a request: every unit is answered with ready_for_query.
use nativepg.Prelude.{◌≤◌, ◌<◌, ◌≡◌, Bool, true, false, List, [], ◌∷◌, none, arith, length}
use nativepg.Protocol.{RequestMessageType, bind, query, sync}
use nativepg.CheckRequest.{check_batches, check_request, get_expected_rfqs}

-- An open batch holds a sync.
batch_expects :
    (ms : List RequestMessageType) → check_batches true ms ≡ none → 0 < get_expected_rfqs ms
unfolding check_batches get_expected_rfqs
batch_expects [] h = cc
batch_expects (query ∷ ms) h = cc
batch_expects (sync ∷ ms) h = omega arith
batch_expects (_ ∷ ms) h = batch_expects ms h

-- What is left of a valid request is answered with ready_for_query at least once.
pub rest_expects :
    (b : Bool) (m : RequestMessageType) (ms : List RequestMessageType)
    → check_batches b (m ∷ ms) ≡ none
    → 0 < get_expected_rfqs (m ∷ ms)
rest_expects true m ms h = batch_expects (m ∷ ms) h
rest_expects false query ms h = unfold get_expected_rfqs in omega arith
rest_expects false sync ms h = unfold get_expected_rfqs in omega arith
rest_expects false bind ms h = unfold check_batches get_expected_rfqs in batch_expects ms h
rest_expects false _ ms h = unfold check_batches get_expected_rfqs in batch_expects ms h

pub request_expects :
    (req : List RequestMessageType) → check_request req ≡ none → 0 < get_expected_rfqs req
unfolding check_request
request_expects [] h = cc
request_expects (m ∷ ms) h = rest_expects false m ms h

pub get_expected_rfqs-le-length : (ms : List RequestMessageType) → get_expected_rfqs ms ≤ length ms
unfolding get_expected_rfqs
get_expected_rfqs-le-length [] = omega arith
get_expected_rfqs-le-length (query ∷ ms) = omega (arith, get_expected_rfqs-le-length ms)
get_expected_rfqs-le-length (_ ∷ ms) = omega (arith, get_expected_rfqs-le-length ms)
