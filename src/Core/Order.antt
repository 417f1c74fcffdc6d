-- ===== src/Core/Order.antt =====
-- shared/Core/include/Shared/Core/Core.hpp
use fix4_2_protocol.Base.{Str}
use fix4_2_protocol.Core.Enum.{Side, OrderStatus}

pub record Order (F : Type 0) : Type 0 where
  pub user_id : Str
  pub order_id : Str
  pub original_qty : F
  pub remain_qty : F
  pub avg_price : F
  pub side : Side
  pub status : OrderStatus
