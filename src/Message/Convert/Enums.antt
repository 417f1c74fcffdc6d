-- ===== src/Message/Convert/Enums.antt =====
-- shared/Message-v2/src/FixConvertor.cpp: the case labels and the message of each `from_FIX` over a
-- one-character enumeration.
use fix4_2_protocol.Base.{codes, ◌≡◌, ◌≢◌, refl, List, [], ◌∷◌, some, arith}
use fix4_2_protocol.Core.Enum.{
  TransactionType, transaction_type_value, OrderStatus, order_status_value, OrderRejectReason,
  order_reject_reason_value, Side, side_value, RejectReasonBusiness, reject_reason_business_value,
  EncryptionMethod, encryption_method_value, HandleInstance, handle_instance_value, OrderType,
  order_type_value, CancelRejectResponseTo, cancel_reject_response_to_value, CancelRejectReason,
  cancel_reject_reason_value,
}
use fix4_2_protocol.Message.Convert.{FixEnum, switch}

abbrev pub transaction_type_labels : List TransactionType
transaction_type_labels =
    TransactionType.new ∷ TransactionType.cancel ∷ TransactionType.correct ∷ TransactionType.status
    ∷ []

pub transaction_type_switch :
    (v : TransactionType)
    → switch transaction_type_value (transaction_type_value v) transaction_type_labels ≡ some v
unfolding switch transaction_type_value
transaction_type_switch TransactionType.new = refl
transaction_type_switch _ = refl

pub transaction_type_not_nul : (v : TransactionType) → transaction_type_value v ≢ 0
unfolding transaction_type_value
transaction_type_not_nul TransactionType.new = omega arith
transaction_type_not_nul _ = omega arith

instance abbrev pub transaction_type_fix : FixEnum TransactionType
transaction_type_fix = record {
  value = transaction_type_value;
  labels = transaction_type_labels;
  expected = codes "Expected: 0 GE value GE 3";
  switch_value = transaction_type_switch;
  not_nul = transaction_type_not_nul;
}

abbrev pub order_status_labels : List OrderStatus
order_status_labels =
    OrderStatus.new_order ∷ OrderStatus.partially_filled ∷ OrderStatus.filled
    ∷ OrderStatus.done_for_day ∷ OrderStatus.canceled ∷ OrderStatus.replaced
    ∷ OrderStatus.pending_cancel ∷ OrderStatus.stopped ∷ OrderStatus.rejected
    ∷ OrderStatus.suspended ∷ OrderStatus.pending_new ∷ OrderStatus.caluclated ∷ OrderStatus.expired
    ∷ OrderStatus.accepted_bidding_restated ∷ OrderStatus.pending_replace ∷ []

pub order_status_switch :
    (v : OrderStatus)
    → switch order_status_value (order_status_value v) order_status_labels ≡ some v
unfolding switch order_status_value
order_status_switch OrderStatus.new_order = refl
order_status_switch _ = refl

pub order_status_not_nul : (v : OrderStatus) → order_status_value v ≢ 0
unfolding order_status_value
order_status_not_nul OrderStatus.new_order = omega arith
order_status_not_nul _ = omega arith

instance abbrev pub order_status_fix : FixEnum OrderStatus
order_status_fix = record {
  value = order_status_value;
  labels = order_status_labels;
  expected = codes "Expected: 0 GE value GE 9 || A GE value GE E";
  switch_value = order_status_switch;
  not_nul = order_status_not_nul;
}

abbrev pub order_reject_reason_labels : List OrderRejectReason
order_reject_reason_labels =
    OrderRejectReason.broker_option ∷ OrderRejectReason.unknow_symbol
    ∷ OrderRejectReason.exchange_close ∷ OrderRejectReason.order_exceed_limit
    ∷ OrderRejectReason.too_late ∷ OrderRejectReason.unknown_order ∷ OrderRejectReason.duplicate
    ∷ OrderRejectReason.duplicate_verbally ∷ OrderRejectReason.stale_order ∷ []

pub order_reject_reason_switch :
    (v : OrderRejectReason)
    → switch order_reject_reason_value (order_reject_reason_value v) order_reject_reason_labels
      ≡ some v
unfolding switch order_reject_reason_value
order_reject_reason_switch OrderRejectReason.broker_option = refl
order_reject_reason_switch _ = refl

pub order_reject_reason_not_nul : (v : OrderRejectReason) → order_reject_reason_value v ≢ 0
unfolding order_reject_reason_value
order_reject_reason_not_nul OrderRejectReason.broker_option = omega arith
order_reject_reason_not_nul _ = omega arith

instance abbrev pub order_reject_reason_fix : FixEnum OrderRejectReason
order_reject_reason_fix = record {
  value = order_reject_reason_value;
  labels = order_reject_reason_labels;
  expected = codes "Expected: 0 GE value GE 8";
  switch_value = order_reject_reason_switch;
  not_nul = order_reject_reason_not_nul;
}

abbrev pub side_labels : List Side
side_labels =
    Side.buy ∷ Side.sell ∷ Side.buy_minus ∷ Side.sell_plus ∷ Side.sell_short
    ∷ Side.sell_short_exempt ∷ Side.undisclosed ∷ Side.cross ∷ Side.cross_short ∷ []

pub side_switch : (v : Side) → switch side_value (side_value v) side_labels ≡ some v
unfolding switch side_value
side_switch Side.buy = refl
side_switch _ = refl

pub side_not_nul : (v : Side) → side_value v ≢ 0
unfolding side_value
side_not_nul Side.buy = omega arith
side_not_nul _ = omega arith

instance abbrev pub side_fix : FixEnum Side
side_fix = record {
  value = side_value;
  labels = side_labels;
  expected = codes "Expected: 1 GE value GE 9";
  switch_value = side_switch;
  not_nul = side_not_nul;
}

abbrev pub reject_reason_business_labels : List RejectReasonBusiness
reject_reason_business_labels =
    RejectReasonBusiness.other ∷ RejectReasonBusiness.unknown_id
    ∷ RejectReasonBusiness.unknown_security ∷ RejectReasonBusiness.unsupported_msg_type
    ∷ RejectReasonBusiness.app_not_available ∷ RejectReasonBusiness.cond_req_field_missing ∷ []

pub reject_reason_business_switch :
    (v : RejectReasonBusiness)
    → switch reject_reason_business_value
        (reject_reason_business_value v)
        reject_reason_business_labels
      ≡ some v
unfolding switch reject_reason_business_value
reject_reason_business_switch RejectReasonBusiness.other = refl
reject_reason_business_switch _ = refl

pub reject_reason_business_not_nul : (v : RejectReasonBusiness) → reject_reason_business_value v ≢ 0
unfolding reject_reason_business_value
reject_reason_business_not_nul RejectReasonBusiness.other = omega arith
reject_reason_business_not_nul _ = omega arith

instance abbrev pub reject_reason_business_fix : FixEnum RejectReasonBusiness
reject_reason_business_fix = record {
  value = reject_reason_business_value;
  labels = reject_reason_business_labels;
  expected = codes "Expected: 0 GE value GE 5";
  switch_value = reject_reason_business_switch;
  not_nul = reject_reason_business_not_nul;
}

abbrev pub encryption_method_labels : List EncryptionMethod
encryption_method_labels =
    EncryptionMethod.no_encryption ∷ EncryptionMethod.pkcs ∷ EncryptionMethod.des
    ∷ EncryptionMethod.pkcsdes ∷ EncryptionMethod.pgpdes ∷ EncryptionMethod.pgpdesmd5
    ∷ EncryptionMethod.pemdesmd5 ∷ []

pub encryption_method_switch :
    (v : EncryptionMethod)
    → switch encryption_method_value (encryption_method_value v) encryption_method_labels ≡ some v
unfolding switch encryption_method_value
encryption_method_switch EncryptionMethod.no_encryption = refl
encryption_method_switch _ = refl

pub encryption_method_not_nul : (v : EncryptionMethod) → encryption_method_value v ≢ 0
unfolding encryption_method_value
encryption_method_not_nul EncryptionMethod.no_encryption = omega arith
encryption_method_not_nul _ = omega arith

instance abbrev pub encryption_method_fix : FixEnum EncryptionMethod
encryption_method_fix = record {
  value = encryption_method_value;
  labels = encryption_method_labels;
  expected = codes "Expected: 0 GE value GE 6";
  switch_value = encryption_method_switch;
  not_nul = encryption_method_not_nul;
}

abbrev pub handle_instance_labels : List HandleInstance
handle_instance_labels =
    HandleInstance.auto_private ∷ HandleInstance.auto_public ∷ HandleInstance.manual ∷ []

pub handle_instance_switch :
    (v : HandleInstance)
    → switch handle_instance_value (handle_instance_value v) handle_instance_labels ≡ some v
unfolding switch handle_instance_value
handle_instance_switch HandleInstance.auto_private = refl
handle_instance_switch _ = refl

pub handle_instance_not_nul : (v : HandleInstance) → handle_instance_value v ≢ 0
unfolding handle_instance_value
handle_instance_not_nul HandleInstance.auto_private = omega arith
handle_instance_not_nul _ = omega arith

instance abbrev pub handle_instance_fix : FixEnum HandleInstance
handle_instance_fix = record {
  value = handle_instance_value;
  labels = handle_instance_labels;
  expected = codes "Expected: 1 GE value GE 3";
  switch_value = handle_instance_switch;
  not_nul = handle_instance_not_nul;
}

abbrev pub order_type_labels : List OrderType
order_type_labels =
    OrderType.market ∷ OrderType.limit ∷ OrderType.stop ∷ OrderType.stop_limit
    ∷ OrderType.market_on_close ∷ OrderType.with_or_without ∷ OrderType.limit_or_better
    ∷ OrderType.limit_with_or_without ∷ OrderType.on_basis ∷ OrderType.on_close
    ∷ OrderType.limit_on_close ∷ OrderType.forex_market ∷ OrderType.prev_quoted
    ∷ OrderType.prev_indicated ∷ OrderType.forex_limit ∷ OrderType.forex_swap
    ∷ OrderType.forex_prev_quoted ∷ OrderType.funari ∷ OrderType.pegged ∷ []

pub order_type_switch :
    (v : OrderType) → switch order_type_value (order_type_value v) order_type_labels ≡ some v
unfolding switch order_type_value
order_type_switch OrderType.market = refl
order_type_switch _ = refl

pub order_type_not_nul : (v : OrderType) → order_type_value v ≢ 0
unfolding order_type_value
order_type_not_nul OrderType.market = omega arith
order_type_not_nul _ = omega arith

instance abbrev pub order_type_fix : FixEnum OrderType
order_type_fix = record {
  value = order_type_value;
  labels = order_type_labels;
  expected = codes "Expected: 1 GE value GE 9 || A GE value GE I || value EQ P";
  switch_value = order_type_switch;
  not_nul = order_type_not_nul;
}

abbrev pub cancel_reject_response_to_labels : List CancelRejectResponseTo
cancel_reject_response_to_labels =
    CancelRejectResponseTo.cancel_request ∷ CancelRejectResponseTo.replace_request ∷ []

pub cancel_reject_response_to_switch :
    (v : CancelRejectResponseTo)
    → switch cancel_reject_response_to_value
        (cancel_reject_response_to_value v)
        cancel_reject_response_to_labels
      ≡ some v
unfolding switch cancel_reject_response_to_value
cancel_reject_response_to_switch CancelRejectResponseTo.cancel_request = refl
cancel_reject_response_to_switch _ = refl

pub cancel_reject_response_to_not_nul :
    (v : CancelRejectResponseTo) → cancel_reject_response_to_value v ≢ 0
unfolding cancel_reject_response_to_value
cancel_reject_response_to_not_nul CancelRejectResponseTo.cancel_request = omega arith
cancel_reject_response_to_not_nul _ = omega arith

instance abbrev pub cancel_reject_response_to_fix : FixEnum CancelRejectResponseTo
cancel_reject_response_to_fix = record {
  value = cancel_reject_response_to_value;
  labels = cancel_reject_response_to_labels;
  expected = codes "Expected: value EQ 1 OR 2";
  switch_value = cancel_reject_response_to_switch;
  not_nul = cancel_reject_response_to_not_nul;
}

abbrev pub cancel_reject_reason_labels : List CancelRejectReason
cancel_reject_reason_labels =
    CancelRejectReason.too_late_cancel ∷ CancelRejectReason.unknown_order_cancel
    ∷ CancelRejectReason.broker_option_cancel ∷ CancelRejectReason.order_pending_cancelor_replace
    ∷ []

pub cancel_reject_reason_switch :
    (v : CancelRejectReason)
    → switch cancel_reject_reason_value (cancel_reject_reason_value v) cancel_reject_reason_labels
      ≡ some v
unfolding switch cancel_reject_reason_value
cancel_reject_reason_switch CancelRejectReason.too_late_cancel = refl
cancel_reject_reason_switch _ = refl

pub cancel_reject_reason_not_nul : (v : CancelRejectReason) → cancel_reject_reason_value v ≢ 0
unfolding cancel_reject_reason_value
cancel_reject_reason_not_nul CancelRejectReason.too_late_cancel = omega arith
cancel_reject_reason_not_nul _ = omega arith

instance abbrev pub cancel_reject_reason_fix : FixEnum CancelRejectReason
cancel_reject_reason_fix = record {
  value = cancel_reject_reason_value;
  labels = cancel_reject_reason_labels;
  expected = codes "Expected: 1 GE value GE 4";
  switch_value = cancel_reject_reason_switch;
  not_nul = cancel_reject_reason_not_nul;
}
