-- ===== src/Core/Enum.antt =====
-- shared/Core/include/Shared/Core/Enum.hpp: the enumerations of FIX 4.2, and the value that stands
-- for each enumerator, `static_cast<char>` of it for all but `RejectReasonSession`.
use Prim.Native.Nat.{ℕ}

pub data RejectReasonSession : Type 0 where
  invalid_tag_num : RejectReasonSession
  required_tag_missing : RejectReasonSession
  tag_not_define : RejectReasonSession
  undefine_tag : RejectReasonSession
  tag_without_value : RejectReasonSession
  value_out_of_range : RejectReasonSession
  incorrect_data_format : RejectReasonSession
  signature_problem : RejectReasonSession
  comp_id_problem : RejectReasonSession
  sending_time_accuracy : RejectReasonSession
  invalid_msg_type : RejectReasonSession

unfoldable pub reject_reason_session_value : RejectReasonSession → ℕ
reject_reason_session_value RejectReasonSession.invalid_tag_num = 1
reject_reason_session_value RejectReasonSession.required_tag_missing = 2
reject_reason_session_value RejectReasonSession.tag_not_define = 3
reject_reason_session_value RejectReasonSession.undefine_tag = 4
reject_reason_session_value RejectReasonSession.tag_without_value = 5
reject_reason_session_value RejectReasonSession.value_out_of_range = 6
reject_reason_session_value RejectReasonSession.incorrect_data_format = 7
reject_reason_session_value RejectReasonSession.signature_problem = 8
reject_reason_session_value RejectReasonSession.comp_id_problem = 9
reject_reason_session_value RejectReasonSession.sending_time_accuracy = 10
reject_reason_session_value RejectReasonSession.invalid_msg_type = 11

pub data TransactionType : Type 0 where
  new : TransactionType
  cancel : TransactionType
  correct : TransactionType
  status : TransactionType

unfoldable pub transaction_type_value : TransactionType → ℕ
transaction_type_value TransactionType.new = b'0'
transaction_type_value TransactionType.cancel = b'1'
transaction_type_value TransactionType.correct = b'2'
transaction_type_value TransactionType.status = b'3'

pub data OrderStatus : Type 0 where
  new_order : OrderStatus
  partially_filled : OrderStatus
  filled : OrderStatus
  done_for_day : OrderStatus
  canceled : OrderStatus
  replaced : OrderStatus
  pending_cancel : OrderStatus
  stopped : OrderStatus
  rejected : OrderStatus
  suspended : OrderStatus
  pending_new : OrderStatus
  caluclated : OrderStatus
  expired : OrderStatus
  accepted_bidding_restated : OrderStatus
  pending_replace : OrderStatus

unfoldable pub order_status_value : OrderStatus → ℕ
order_status_value OrderStatus.new_order = b'0'
order_status_value OrderStatus.partially_filled = b'1'
order_status_value OrderStatus.filled = b'2'
order_status_value OrderStatus.done_for_day = b'3'
order_status_value OrderStatus.canceled = b'4'
order_status_value OrderStatus.replaced = b'5'
order_status_value OrderStatus.pending_cancel = b'6'
order_status_value OrderStatus.stopped = b'7'
order_status_value OrderStatus.rejected = b'8'
order_status_value OrderStatus.suspended = b'9'
order_status_value OrderStatus.pending_new = b'A'
order_status_value OrderStatus.caluclated = b'B'
order_status_value OrderStatus.expired = b'C'
order_status_value OrderStatus.accepted_bidding_restated = b'D'
order_status_value OrderStatus.pending_replace = b'E'

pub data OrderRejectReason : Type 0 where
  broker_option : OrderRejectReason
  unknow_symbol : OrderRejectReason
  exchange_close : OrderRejectReason
  order_exceed_limit : OrderRejectReason
  too_late : OrderRejectReason
  unknown_order : OrderRejectReason
  duplicate : OrderRejectReason
  duplicate_verbally : OrderRejectReason
  stale_order : OrderRejectReason

unfoldable pub order_reject_reason_value : OrderRejectReason → ℕ
order_reject_reason_value OrderRejectReason.broker_option = b'0'
order_reject_reason_value OrderRejectReason.unknow_symbol = b'1'
order_reject_reason_value OrderRejectReason.exchange_close = b'2'
order_reject_reason_value OrderRejectReason.order_exceed_limit = b'3'
order_reject_reason_value OrderRejectReason.too_late = b'4'
order_reject_reason_value OrderRejectReason.unknown_order = b'5'
order_reject_reason_value OrderRejectReason.duplicate = b'6'
order_reject_reason_value OrderRejectReason.duplicate_verbally = b'7'
order_reject_reason_value OrderRejectReason.stale_order = b'8'

pub data Side : Type 0 where
  buy : Side
  sell : Side
  buy_minus : Side
  sell_plus : Side
  sell_short : Side
  sell_short_exempt : Side
  undisclosed : Side
  cross : Side
  cross_short : Side

unfoldable pub side_value : Side → ℕ
side_value Side.buy = b'1'
side_value Side.sell = b'2'
side_value Side.buy_minus = b'3'
side_value Side.sell_plus = b'4'
side_value Side.sell_short = b'5'
side_value Side.sell_short_exempt = b'6'
side_value Side.undisclosed = b'7'
side_value Side.cross = b'8'
side_value Side.cross_short = b'9'

pub data RejectReasonBusiness : Type 0 where
  other : RejectReasonBusiness
  unknown_id : RejectReasonBusiness
  unknown_security : RejectReasonBusiness
  unsupported_msg_type : RejectReasonBusiness
  app_not_available : RejectReasonBusiness
  cond_req_field_missing : RejectReasonBusiness

unfoldable pub reject_reason_business_value : RejectReasonBusiness → ℕ
reject_reason_business_value RejectReasonBusiness.other = b'0'
reject_reason_business_value RejectReasonBusiness.unknown_id = b'1'
reject_reason_business_value RejectReasonBusiness.unknown_security = b'2'
reject_reason_business_value RejectReasonBusiness.unsupported_msg_type = b'3'
reject_reason_business_value RejectReasonBusiness.app_not_available = b'4'
reject_reason_business_value RejectReasonBusiness.cond_req_field_missing = b'5'

pub data EncryptionMethod : Type 0 where
  no_encryption : EncryptionMethod
  pkcs : EncryptionMethod
  des : EncryptionMethod
  pkcsdes : EncryptionMethod
  pgpdes : EncryptionMethod
  pgpdesmd5 : EncryptionMethod
  pemdesmd5 : EncryptionMethod

unfoldable pub encryption_method_value : EncryptionMethod → ℕ
encryption_method_value EncryptionMethod.no_encryption = b'0'
encryption_method_value EncryptionMethod.pkcs = b'1'
encryption_method_value EncryptionMethod.des = b'2'
encryption_method_value EncryptionMethod.pkcsdes = b'3'
encryption_method_value EncryptionMethod.pgpdes = b'4'
encryption_method_value EncryptionMethod.pgpdesmd5 = b'5'
encryption_method_value EncryptionMethod.pemdesmd5 = b'6'

pub data HandleInstance : Type 0 where
  auto_private : HandleInstance
  auto_public : HandleInstance
  manual : HandleInstance

unfoldable pub handle_instance_value : HandleInstance → ℕ
handle_instance_value HandleInstance.auto_private = b'1'
handle_instance_value HandleInstance.auto_public = b'2'
handle_instance_value HandleInstance.manual = b'3'

pub data OrderType : Type 0 where
  market : OrderType
  limit : OrderType
  stop : OrderType
  stop_limit : OrderType
  market_on_close : OrderType
  with_or_without : OrderType
  limit_or_better : OrderType
  limit_with_or_without : OrderType
  on_basis : OrderType
  on_close : OrderType
  limit_on_close : OrderType
  forex_market : OrderType
  prev_quoted : OrderType
  prev_indicated : OrderType
  forex_limit : OrderType
  forex_swap : OrderType
  forex_prev_quoted : OrderType
  funari : OrderType
  pegged : OrderType

unfoldable pub order_type_value : OrderType → ℕ
order_type_value OrderType.market = b'1'
order_type_value OrderType.limit = b'2'
order_type_value OrderType.stop = b'3'
order_type_value OrderType.stop_limit = b'4'
order_type_value OrderType.market_on_close = b'5'
order_type_value OrderType.with_or_without = b'6'
order_type_value OrderType.limit_or_better = b'7'
order_type_value OrderType.limit_with_or_without = b'8'
order_type_value OrderType.on_basis = b'9'
order_type_value OrderType.on_close = b'A'
order_type_value OrderType.limit_on_close = b'B'
order_type_value OrderType.forex_market = b'C'
order_type_value OrderType.prev_quoted = b'D'
order_type_value OrderType.prev_indicated = b'E'
order_type_value OrderType.forex_limit = b'F'
order_type_value OrderType.forex_swap = b'G'
order_type_value OrderType.forex_prev_quoted = b'H'
order_type_value OrderType.funari = b'I'
order_type_value OrderType.pegged = b'P'

pub data CancelRejectResponseTo : Type 0 where
  cancel_request : CancelRejectResponseTo
  replace_request : CancelRejectResponseTo

unfoldable pub cancel_reject_response_to_value : CancelRejectResponseTo → ℕ
cancel_reject_response_to_value CancelRejectResponseTo.cancel_request = b'1'
cancel_reject_response_to_value CancelRejectResponseTo.replace_request = b'2'

pub data CancelRejectReason : Type 0 where
  too_late_cancel : CancelRejectReason
  unknown_order_cancel : CancelRejectReason
  broker_option_cancel : CancelRejectReason
  order_pending_cancelor_replace : CancelRejectReason

unfoldable pub cancel_reject_reason_value : CancelRejectReason → ℕ
cancel_reject_reason_value CancelRejectReason.too_late_cancel = b'0'
cancel_reject_reason_value CancelRejectReason.unknown_order_cancel = b'1'
cancel_reject_reason_value CancelRejectReason.broker_option_cancel = b'2'
cancel_reject_reason_value CancelRejectReason.order_pending_cancelor_replace = b'3'
