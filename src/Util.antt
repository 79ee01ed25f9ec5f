-- ===== src/Util.antt =====
-- pkg/common/util: helpers that the routing code shares.
pub mod StringUtil
