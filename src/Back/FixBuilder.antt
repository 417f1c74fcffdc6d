-- ===== src/Back/FixBuilder.antt =====
-- client/back/src/ProcessUnit/FixBuilder.cpp: the messages for the server that are made of those of the front end.
use fix4_2_protocol.Base.{ℕ, Str, Option, none, some, ◌+◌, ◌%◌, ◌^◌}
use fix4_2_protocol.Core.Enum.{EncryptionMethod, HandleInstance, OrderType}
use fix4_2_protocol.Network.Buffer.{Buffer, FloatBytes}
use fix4_2_protocol.Ipc.Types.{MessageType, LogonMessage, OrderSingle}
use fix4_2_protocol.Ipc.Wire.{get_header, get_logon, get_order_single}
use fix4_2_protocol.Units.{LogonRequest}
use fix4_2_protocol.Back.{User, set_user_id, set_number}

-- `fix42::msg::NewOrderSingle` as `buildOrderSingle` fills it; the side is a byte.
pub record BuiltOrder (F : Type 0) : Type 0 where
  pub cl_ord_id : Str
  pub handl_inst : HandleInstance
  pub order_qty : F
  pub ord_type : OrderType
  pub price : F
  pub side : ℕ
  pub symbol : Str

pub data Built (F : Type 0) : Type 0 where
  built_logon : LogonRequest → Built F
  built_order : BuiltOrder F → Built F

-- `buildLogon`: `old` is what the fields hold before.
unfoldable pub build_logon : LogonMessage → Buffer → User → User × LogonRequest
unfolding set_user_id set_number
build_logon old b u =
    let (_, m) = get_logon old b in
    (
      set_number m.seq_num (set_user_id m.user_id u),
      record {
        encrypt_method = EncryptionMethod.no_encryption;
        heart_bt_int = (m.heart_beat + 1) % 2 ^ 32;
      },
    )

module _ {F : Type 0} ⦃fb : FloatBytes F⦄ where
  -- `buildOrderSingle`
  unfoldable pub build_order_single : ℕ → OrderSingle F → Buffer → BuiltOrder F
  build_order_single unset old b =
      let (_, m) = get_order_single unset old b in
      record {
        cl_ord_id = m.order_id;
        handl_inst = HandleInstance.manual;
        order_qty = m.quantity;
        ord_type = OrderType.limit;
        price = m.price;
        side = m.side;
        symbol = m.symbol;
      }

  unfoldable pub build_as :
      MessageType → ℕ → LogonMessage → OrderSingle F → Buffer → User → User × Option (Built F)
  unfolding build_logon build_order_single
  build_as MessageType.logon unset l o b u =
      let (u', m) = build_logon l b u in (u', some (built_logon m))
  build_as MessageType.order_single unset l o b u =
      (u, some (built_order (build_order_single unset o b)))
  build_as _ unset l o b u = (u, none)

  -- A round of `runtime` with a buffer of the queue; the header is read into that of the round before.
  unfoldable pub build :
      ℕ → ℕ → LogonMessage → OrderSingle F → Buffer → User → User × Option (Built F)
  unfolding build_as
  build unset before l o b u =
      let (b', h) = get_header unset before b in build_as h.msg_type unset l o b' u
