-- ===== src/Errors.antt =====
-- The error catalog (programs/tidebook/src/errors/catalog.rs), and the errors that Anchor itself raises
-- for an account constraint without a code of its own.
pub data TidebookError : Type 0 where
  market_paused invalid_market_status market_already_initialized market_not_found : TidebookError
  market_already_paused market_already_active unauthorized market_must_be_paused : TidebookError
  market_not_active invalid_order_id invalid_price invalid_quantity identical_mints : TidebookError
  unauthorized_admin invalid_deployer unauthorized_super_admin invalid_admin : TidebookError
  admin_already_disabled admin_already_active cannot_modify_super_admin : TidebookError
  admin_must_be_disabled admin_disabled unauthorized_order_owner order_market_mismatch :
      TidebookError
  order_not_open invalid_price_tick_size invalid_quantity_lot_size price_not_on_tick : TidebookError
  quantity_not_on_lot order_notional_overflow order_notional_too_small : TidebookError
  invalid_collateral_mint invalid_collateral_owner insufficient_collateral : TidebookError
  open_order_count_overflow open_order_count_underflow market_has_open_orders : TidebookError
  market_vault_not_empty invalid_vault_authority price_level_market_mismatch : TidebookError
  price_level_side_mismatch price_level_price_mismatch invalid_price_level_tail : TidebookError
  order_price_level_mismatch price_level_order_count_overflow price_level_quantity_overflow :
      TidebookError
  order_id_overflow invalid_price_level_neighbors best_price_level_mismatch : TidebookError
  invalid_price_level_ordering noncanonical_price_level invalid_order_neighbor : TidebookError
  broken_order_queue_link price_level_order_count_underflow price_level_quantity_underflow :
      TidebookError
  noncanonical_order invalid_price_level_rent_recipient invalid_price_level_endpoints :
      TidebookError
  invalid_price_level_aggregate invalid_deposit_amount invalid_deposit_mint : TidebookError
  trader_balance_market_mismatch trader_balance_owner_mismatch free_balance_overflow : TidebookError
  locked_balance_overflow locked_balance_underflow insufficient_deposit_funds : TidebookError
  invalid_withdrawal_amount invalid_withdrawal_mint insufficient_free_balance : TidebookError
  invalid_withdrawal_destination_owner insufficient_vault_funds matching_same_side : TidebookError
  orders_do_not_cross invalid_maker_collateral self_trade_not_allowed : TidebookError
  maker_not_at_best_price maker_not_fifo_head fee_rate_too_high fee_calculation_overflow :
      TidebookError
  market_fees_market_mismatch market_fees_quote_mint_mismatch market_fees_not_empty : TidebookError
  fee_accrual_overflow invalid_fee_withdrawal_amount insufficient_accrued_fees : TidebookError
  invalid_fee_destination_mint invalid_faucet_claim_amount faucet_mint_supply_not_zero :
      TidebookError
  invalid_faucet_mint_authority faucet_market_mismatch faucet_mint_mismatch : TidebookError
  invalid_faucet_destination_owner faucet_must_be_closed invalid_market_symbol : TidebookError
  invalid_market_display_name prediction_market_unavailable market_metadata_mismatch : TidebookError
  invalid_prediction_close_time invalid_prediction_resolution_time : TidebookError
  invalid_prediction_fallback invalid_prediction_resolver : TidebookError
  invalid_prediction_resolution_delay invalid_prediction_payout : TidebookError
  invalid_prediction_price_tick invalid_prediction_rules_uri invalid_prediction_rules_hash :
      TidebookError
  prediction_timestamp_overflow prediction_position_market_mismatch : TidebookError
  prediction_position_owner_mismatch invalid_prediction_collateral_mint : TidebookError
  invalid_prediction_vault prediction_deposit_after_resolution : TidebookError
  invalid_prediction_token_owner invalid_prediction_contract_quantity : TidebookError
  prediction_split_unavailable prediction_merge_unavailable : TidebookError
  insufficient_prediction_positions prediction_accounting_overflow : TidebookError
  prediction_backing_underflow unauthorized_prediction_authority prediction_not_draft :
      TidebookError
  prediction_opening_closed prediction_creator_must_resolve prediction_book_market_mismatch :
      TidebookError
  prediction_order_unavailable prediction_side_not_empty invalid_prediction_order_price :
      TidebookError
  prediction_order_would_cross invalid_prediction_order_id invalid_prediction_price_level :
      TidebookError
  invalid_prediction_tail prediction_order_not_open unauthorized_prediction_order_owner :
      TidebookError
  invalid_prediction_order_neighbor invalid_prediction_rent_recipient : TidebookError
  prediction_order_accounting_mismatch prediction_matching_same_side : TidebookError
  prediction_orders_do_not_cross prediction_self_trade prediction_maker_not_best : TidebookError
  prediction_maker_not_head invalid_asset_balance shared_market_kind_mismatch : TidebookError
  invalid_shared_book invalid_shared_neighbor unauthorized_shared_order_owner : TidebookError
  shared_book_not_empty shared_book_must_be_closed prediction_resolution_unavailable : TidebookError
  unauthorized_prediction_resolver invalid_prediction_evidence : TidebookError
  prediction_proposal_unavailable prediction_fallback_unavailable prediction_not_resolved :
      TidebookError
  nothing_to_redeem : TidebookError

pub data AnchorError : Type 0 where
  constraint_seeds constraint_has_one constraint_address constraint_token_mint : AnchorError
  constraint_token_owner : AnchorError
  account_already_in_use token_transfer_failed account_discriminator_mismatch constraint_owner :
      AnchorError

pub data Error : Type 0 where
  program : TidebookError → Error
  anchor : AnchorError → Error
