-- ===== src/Wallet/Calls/Vouched.antt =====
-- Who gets a credential from system/zk-wallet-go, and for how long.
