-- ===== src/Packets/TradeStructs.antt =====
-- The packet structs of Server/Common/Packet/Packet.h for the inventory, the shop and trades.
use project_run_server.Base.{List, [], ◌∷◌}
use project_run_server.Packets.Ids.{
  inventory_info, shop_buy_request, shop_buy_response, shop_info, trade_confirm, trade_confirm_ntf,
  trade_item_ntf, trade_item_update, trade_lock, trade_lock_ntf, trade_request, trade_request_ntf,
  trade_response, trade_result, trade_start_ntf,
}
use project_run_server.Packets.Layout.{Layout, chars, int32, int64, int8, repeated}

abbrev pub inventory_info_packet : Layout
inventory_info_packet = record { id = inventory_info; fields = int64 ∷ repeated 5 (int32 ∷ []) }

abbrev pub shop_info_packet : Layout
shop_info_packet = record { id = shop_info; fields = int32 ∷ int64 ∷ [] }

abbrev pub shop_buy_request_packet : Layout
shop_buy_request_packet = record { id = shop_buy_request; fields = int64 ∷ int32 ∷ [] }

abbrev pub shop_buy_response_packet : Layout
shop_buy_response_packet = record { id = shop_buy_response; fields = int8 ∷ [] }

abbrev pub trade_request_packet : Layout
trade_request_packet = record { id = trade_request; fields = int64 ∷ [] }

abbrev pub trade_request_ntf_packet : Layout
trade_request_ntf_packet = record { id = trade_request_ntf; fields = int64 ∷ chars 33 ∷ [] }

abbrev pub trade_response_packet : Layout
trade_response_packet = record { id = trade_response; fields = int64 ∷ int8 ∷ [] }

abbrev pub trade_start_ntf_packet : Layout
trade_start_ntf_packet = record { id = trade_start_ntf; fields = int64 ∷ chars 33 ∷ [] }

abbrev pub trade_item_update_packet : Layout
trade_item_update_packet = record { id = trade_item_update; fields = int32 ∷ int32 ∷ int32 ∷ [] }

abbrev pub trade_item_ntf_packet : Layout
trade_item_ntf_packet = record { id = trade_item_ntf; fields = int32 ∷ int32 ∷ [] }

abbrev pub trade_lock_packet : Layout
trade_lock_packet = record { id = trade_lock; fields = int8 ∷ [] }

abbrev pub trade_lock_ntf_packet : Layout
trade_lock_ntf_packet = record { id = trade_lock_ntf; fields = int8 ∷ [] }

abbrev pub trade_confirm_packet : Layout
trade_confirm_packet = record { id = trade_confirm; fields = int8 ∷ [] }

abbrev pub trade_confirm_ntf_packet : Layout
trade_confirm_ntf_packet = record { id = trade_confirm_ntf; fields = int8 ∷ int64 ∷ [] }

abbrev pub trade_result_packet : Layout
trade_result_packet = record { id = trade_result; fields = int8 ∷ [] }

abbrev pub trade_packets : List Layout
trade_packets =
    inventory_info_packet ∷ shop_info_packet ∷ shop_buy_request_packet ∷ shop_buy_response_packet
    ∷ trade_request_packet ∷ trade_request_ntf_packet ∷ trade_response_packet
    ∷ trade_start_ntf_packet ∷ trade_item_update_packet ∷ trade_item_ntf_packet ∷ trade_lock_packet
    ∷ trade_lock_ntf_packet ∷ trade_confirm_packet ∷ trade_confirm_ntf_packet ∷ trade_result_packet
    ∷ []
