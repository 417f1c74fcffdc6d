-- ===== src/Message/Types.antt =====
-- shared/Message-v2/include/Shared/Message-v2/Message.hpp: the messages of the market, a field for each
-- tag. Prices and quantities are a type F.
use fix4_2_protocol.Base.{ℕ, Str, Option}
use fix4_2_protocol.Core.Enum.{
  RejectReasonSession, TransactionType, OrderStatus, OrderRejectReason, Side, RejectReasonBusiness,
  HandleInstance, OrderType, CancelRejectResponseTo, CancelRejectReason,
}

pub record Header : Type 0 where
  pub begin_string : Str
  pub body_length : ℕ
  pub msg_type : ℕ
  pub sender_comp_id : Str
  pub target_comp_id : Str
  pub msg_seq_num : ℕ
  pub sending_time : ℕ

pub record SessionReject : Type 0 where
  pub ref_seq_num : ℕ
  pub ref_tag_id : Option ℕ
  pub ref_msg_type : Option ℕ
  pub session_reject_reason : Option RejectReasonSession
  pub text : Option Str

pub record BusinessReject : Type 0 where
  pub ref_seq_num : Option ℕ
  pub ref_msg_type : ℕ
  pub business_reject_ref_id : Option Str
  pub business_reject_reason : RejectReasonBusiness
  pub text : Option Str

pub record OrderCancelReject : Type 0 where
  pub order_id : Str
  pub orig_cl_ord_id : Str
  pub ord_status : OrderStatus
  pub cxl_rej_response_to : CancelRejectResponseTo
  pub cxl_rej_reason : Option CancelRejectReason
  pub text : Option Str

module _ (F : Type 0) where
  -- `side` is `none` where the code leaves the tag as the constructor made it.
  pub record ExecutionReport : Type 0 where
    pub order_id : Str
    pub cl_ord_id : Option Str
    pub exec_id : Str
    pub exec_trans_type : TransactionType
    pub exec_type : OrderStatus
    pub ord_status : OrderStatus
    pub ord_rej_reason : Option OrderRejectReason
    pub symbol : Str
    pub side : Option Side
    pub order_qty : Option F
    pub ord_type : Option OrderType
    pub price : Option F
    pub leaves_qty : F
    pub last_shares : Option F
    pub last_px : Option F
    pub cum_qty : F
    pub avg_px : F
    pub text : Option Str

  pub record NewOrderSingle : Type 0 where
    pub cl_ord_id : Str
    pub handl_inst : HandleInstance
    pub symbol : Str
    pub side : Side
    pub order_qty : Option F
    pub ord_type : OrderType
    pub price : Option F

  pub record OrderCancelRequest : Type 0 where
    pub orig_cl_ord_id : Str
    pub order_id : Option Str
    pub cl_ord_id : Str
    pub symbol : Str
    pub side : Side
    pub transact_time : ℕ
    pub order_qty : Option F
