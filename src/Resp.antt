-- ===== src/Resp.antt =====
-- internal/resp/: the RESP2 codec of the Redis client. `Number` is parseInt and the decimal text that
-- strconv writes, `Codec` the commands and replies.
pub mod Number
pub mod Codec
pub mod Pool
mod Examples
