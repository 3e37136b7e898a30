-- ===== src/Command/Table.antt =====
-- internal/command/table.go, and the types of command.go: the metadata of the commands.
use dragon_cluster_resp_prox.Base.{
  ℕ, ℤ, pos, negsuc, List, [], ◌∷◌, Bytes, codes, String, Option, equal, if◌then◌else◌,
}

pub data Kind : Type 0 where
  unknown read write block pub_sub txn script connection admin : Kind

pub data Fanout : Type 0 where
  none sum mget mset : Fanout

-- `last` counts from the end if it is negative; the other two are never negative in the table.
pub record KeySpec : Type 0 where
  pub first : ℕ
  pub last : ℤ
  pub step : ℕ

pub record Meta : Type 0 where
  pub name : Bytes
  pub kind : Kind
  pub keys : KeySpec
  pub fanout : Fanout

abbrev pub spec : ℕ → ℤ → ℕ → KeySpec
spec f l s = record { first = f; last = l; step = s }

abbrev split : String → Kind → ℕ → ℤ → ℕ → Fanout → Meta
split n k f l s o = record { name = codes n; kind = k; keys = spec f l s; fanout = o }

abbrev keyed : String → Kind → ℕ → ℤ → ℕ → Meta
keyed n k f l s = split n k f l s Fanout.none

abbrev plain : String → Kind → Meta
plain n k = keyed n k 0 (pos 0) 0

-- The map's entries; no name stands twice.
unfoldable pub table : List Meta
table =
    keyed "GET" Kind.read 1 (pos 1) 1
    ∷ keyed "SET" Kind.write 1 (pos 1) 1
    ∷ keyed "SETNX" Kind.write 1 (pos 1) 1
    ∷ keyed "SETEX" Kind.write 1 (pos 1) 1
    ∷ keyed "PSETEX" Kind.write 1 (pos 1) 1
    ∷ keyed "GETSET" Kind.write 1 (pos 1) 1
    ∷ keyed "GETDEL" Kind.write 1 (pos 1) 1
    ∷ keyed "GETEX" Kind.write 1 (pos 1) 1
    ∷ split "MGET" Kind.read 1 (negsuc 0) 1 Fanout.mget
    ∷ split "MSET" Kind.write 1 (negsuc 0) 2 Fanout.mset
    ∷ keyed "MSETNX" Kind.write 1 (negsuc 0) 2
    ∷ keyed "APPEND" Kind.write 1 (pos 1) 1
    ∷ keyed "STRLEN" Kind.read 1 (pos 1) 1
    ∷ keyed "INCR" Kind.write 1 (pos 1) 1
    ∷ keyed "DECR" Kind.write 1 (pos 1) 1
    ∷ keyed "INCRBY" Kind.write 1 (pos 1) 1
    ∷ keyed "DECRBY" Kind.write 1 (pos 1) 1
    ∷ keyed "INCRBYFLOAT" Kind.write 1 (pos 1) 1
    ∷ keyed "GETRANGE" Kind.read 1 (pos 1) 1
    ∷ keyed "SETRANGE" Kind.write 1 (pos 1) 1
    ∷ keyed "SETBIT" Kind.write 1 (pos 1) 1
    ∷ keyed "GETBIT" Kind.read 1 (pos 1) 1
    ∷ keyed "BITCOUNT" Kind.read 1 (pos 1) 1
    ∷ keyed "BITPOS" Kind.read 1 (pos 1) 1
    ∷ keyed "BITOP" Kind.write 2 (negsuc 0) 1
    ∷ keyed "BITFIELD" Kind.write 1 (pos 1) 1
    ∷ keyed "SUBSTR" Kind.read 1 (pos 1) 1
    ∷ split "DEL" Kind.write 1 (negsuc 0) 1 Fanout.sum
    ∷ split "UNLINK" Kind.write 1 (negsuc 0) 1 Fanout.sum
    ∷ split "EXISTS" Kind.read 1 (negsuc 0) 1 Fanout.sum
    ∷ keyed "EXPIRE" Kind.write 1 (pos 1) 1
    ∷ keyed "EXPIREAT" Kind.write 1 (pos 1) 1
    ∷ keyed "PEXPIRE" Kind.write 1 (pos 1) 1
    ∷ keyed "PEXPIREAT" Kind.write 1 (pos 1) 1
    ∷ keyed "TTL" Kind.read 1 (pos 1) 1
    ∷ keyed "PTTL" Kind.read 1 (pos 1) 1
    ∷ keyed "TYPE" Kind.read 1 (pos 1) 1
    ∷ keyed "PERSIST" Kind.write 1 (pos 1) 1
    ∷ keyed "RENAME" Kind.write 1 (pos 2) 1
    ∷ keyed "RENAMENX" Kind.write 1 (pos 2) 1
    ∷ keyed "DUMP" Kind.read 1 (pos 1) 1
    ∷ keyed "RESTORE" Kind.write 1 (pos 1) 1
    ∷ split "TOUCH" Kind.write 1 (negsuc 0) 1 Fanout.sum
    ∷ keyed "COPY" Kind.write 1 (pos 2) 1
    ∷ keyed "MOVE" Kind.write 1 (pos 1) 1
    ∷ keyed "OBJECT" Kind.read 2 (pos 2) 1
    ∷ keyed "EXPIRETIME" Kind.read 1 (pos 1) 1
    ∷ keyed "PEXPIRETIME" Kind.read 1 (pos 1) 1
    ∷ keyed "HGET" Kind.read 1 (pos 1) 1
    ∷ keyed "HSET" Kind.write 1 (pos 1) 1
    ∷ keyed "HSETNX" Kind.write 1 (pos 1) 1
    ∷ keyed "HMGET" Kind.read 1 (pos 1) 1
    ∷ keyed "HMSET" Kind.write 1 (pos 1) 1
    ∷ keyed "HDEL" Kind.write 1 (pos 1) 1
    ∷ keyed "HEXISTS" Kind.read 1 (pos 1) 1
    ∷ keyed "HGETALL" Kind.read 1 (pos 1) 1
    ∷ keyed "HINCRBY" Kind.write 1 (pos 1) 1
    ∷ keyed "HINCRBYFLOAT" Kind.write 1 (pos 1) 1
    ∷ keyed "HKEYS" Kind.read 1 (pos 1) 1
    ∷ keyed "HVALS" Kind.read 1 (pos 1) 1
    ∷ keyed "HLEN" Kind.read 1 (pos 1) 1
    ∷ keyed "HSCAN" Kind.read 1 (pos 1) 1
    ∷ keyed "HSTRLEN" Kind.read 1 (pos 1) 1
    ∷ keyed "HRANDFIELD" Kind.read 1 (pos 1) 1
    ∷ keyed "LPUSH" Kind.write 1 (pos 1) 1
    ∷ keyed "RPUSH" Kind.write 1 (pos 1) 1
    ∷ keyed "LPUSHX" Kind.write 1 (pos 1) 1
    ∷ keyed "RPUSHX" Kind.write 1 (pos 1) 1
    ∷ keyed "LPOP" Kind.write 1 (pos 1) 1
    ∷ keyed "RPOP" Kind.write 1 (pos 1) 1
    ∷ keyed "LLEN" Kind.read 1 (pos 1) 1
    ∷ keyed "LINDEX" Kind.read 1 (pos 1) 1
    ∷ keyed "LRANGE" Kind.read 1 (pos 1) 1
    ∷ keyed "LSET" Kind.write 1 (pos 1) 1
    ∷ keyed "LTRIM" Kind.write 1 (pos 1) 1
    ∷ keyed "LREM" Kind.write 1 (pos 1) 1
    ∷ keyed "LINSERT" Kind.write 1 (pos 1) 1
    ∷ keyed "LMOVE" Kind.write 1 (pos 2) 1
    ∷ keyed "RPOPLPUSH" Kind.write 1 (pos 2) 1
    ∷ plain "LMPOP" Kind.write
    ∷ keyed "BLPOP" Kind.block 1 (negsuc 1) 1
    ∷ keyed "BRPOP" Kind.block 1 (negsuc 1) 1
    ∷ keyed "BRPOPLPUSH" Kind.block 1 (pos 2) 1
    ∷ keyed "BLMOVE" Kind.block 1 (pos 2) 1
    ∷ plain "BLMPOP" Kind.block
    ∷ keyed "LPOS" Kind.read 1 (pos 1) 1
    ∷ keyed "SADD" Kind.write 1 (pos 1) 1
    ∷ keyed "SREM" Kind.write 1 (pos 1) 1
    ∷ keyed "SMEMBERS" Kind.read 1 (pos 1) 1
    ∷ keyed "SISMEMBER" Kind.read 1 (pos 1) 1
    ∷ keyed "SMISMEMBER" Kind.read 1 (pos 1) 1
    ∷ keyed "SCARD" Kind.read 1 (pos 1) 1
    ∷ keyed "SPOP" Kind.write 1 (pos 1) 1
    ∷ keyed "SRANDMEMBER" Kind.read 1 (pos 1) 1
    ∷ keyed "SMOVE" Kind.write 1 (pos 2) 1
    ∷ keyed "SINTER" Kind.read 1 (negsuc 0) 1
    ∷ keyed "SINTERSTORE" Kind.write 1 (negsuc 0) 1
    ∷ keyed "SUNION" Kind.read 1 (negsuc 0) 1
    ∷ keyed "SUNIONSTORE" Kind.write 1 (negsuc 0) 1
    ∷ keyed "SDIFF" Kind.read 1 (negsuc 0) 1
    ∷ keyed "SDIFFSTORE" Kind.write 1 (negsuc 0) 1
    ∷ keyed "SSCAN" Kind.read 1 (pos 1) 1
    ∷ plain "SINTERCARD" Kind.read
    ∷ keyed "ZADD" Kind.write 1 (pos 1) 1
    ∷ keyed "ZREM" Kind.write 1 (pos 1) 1
    ∷ keyed "ZSCORE" Kind.read 1 (pos 1) 1
    ∷ keyed "ZINCRBY" Kind.write 1 (pos 1) 1
    ∷ keyed "ZCARD" Kind.read 1 (pos 1) 1
    ∷ keyed "ZCOUNT" Kind.read 1 (pos 1) 1
    ∷ keyed "ZRANGE" Kind.read 1 (pos 1) 1
    ∷ keyed "ZREVRANGE" Kind.read 1 (pos 1) 1
    ∷ keyed "ZRANGEBYSCORE" Kind.read 1 (pos 1) 1
    ∷ keyed "ZREVRANGEBYSCORE" Kind.read 1 (pos 1) 1
    ∷ keyed "ZRANK" Kind.read 1 (pos 1) 1
    ∷ keyed "ZREVRANK" Kind.read 1 (pos 1) 1
    ∷ keyed "ZRANGEBYLEX" Kind.read 1 (pos 1) 1
    ∷ keyed "ZREVRANGEBYLEX" Kind.read 1 (pos 1) 1
    ∷ keyed "ZLEXCOUNT" Kind.read 1 (pos 1) 1
    ∷ keyed "ZREMRANGEBYRANK" Kind.write 1 (pos 1) 1
    ∷ keyed "ZREMRANGEBYSCORE" Kind.write 1 (pos 1) 1
    ∷ keyed "ZREMRANGEBYLEX" Kind.write 1 (pos 1) 1
    ∷ keyed "ZPOPMIN" Kind.write 1 (pos 1) 1
    ∷ keyed "ZPOPMAX" Kind.write 1 (pos 1) 1
    ∷ keyed "BZPOPMIN" Kind.block 1 (negsuc 1) 1
    ∷ keyed "BZPOPMAX" Kind.block 1 (negsuc 1) 1
    ∷ plain "BZMPOP" Kind.block
    ∷ plain "ZMPOP" Kind.write
    ∷ keyed "ZUNIONSTORE" Kind.write 1 (pos 1) 1
    ∷ keyed "ZINTERSTORE" Kind.write 1 (pos 1) 1
    ∷ keyed "ZDIFFSTORE" Kind.write 1 (pos 1) 1
    ∷ plain "ZUNION" Kind.read
    ∷ plain "ZINTER" Kind.read
    ∷ plain "ZDIFF" Kind.read
    ∷ keyed "ZSCAN" Kind.read 1 (pos 1) 1
    ∷ keyed "ZMSCORE" Kind.read 1 (pos 1) 1
    ∷ keyed "ZRANDMEMBER" Kind.read 1 (pos 1) 1
    ∷ keyed "XADD" Kind.write 1 (pos 1) 1
    ∷ keyed "XLEN" Kind.read 1 (pos 1) 1
    ∷ keyed "XRANGE" Kind.read 1 (pos 1) 1
    ∷ keyed "XREVRANGE" Kind.read 1 (pos 1) 1
    ∷ plain "XREAD" Kind.read
    ∷ plain "XREADGROUP" Kind.read
    ∷ keyed "XACK" Kind.write 1 (pos 1) 1
    ∷ keyed "XDEL" Kind.write 1 (pos 1) 1
    ∷ keyed "XGROUP" Kind.write 2 (pos 2) 1
    ∷ keyed "XINFO" Kind.read 2 (pos 2) 1
    ∷ keyed "XPENDING" Kind.read 1 (pos 1) 1
    ∷ keyed "XCLAIM" Kind.write 1 (pos 1) 1
    ∷ keyed "XAUTOCLAIM" Kind.write 1 (pos 1) 1
    ∷ keyed "XTRIM" Kind.write 1 (pos 1) 1
    ∷ keyed "PFADD" Kind.write 1 (pos 1) 1
    ∷ keyed "PFCOUNT" Kind.read 1 (negsuc 0) 1
    ∷ keyed "PFMERGE" Kind.write 1 (negsuc 0) 1
    ∷ keyed "GEOADD" Kind.write 1 (pos 1) 1
    ∷ keyed "GEODIST" Kind.read 1 (pos 1) 1
    ∷ keyed "GEOHASH" Kind.read 1 (pos 1) 1
    ∷ keyed "GEOPOS" Kind.read 1 (pos 1) 1
    ∷ keyed "GEORADIUS" Kind.read 1 (pos 1) 1
    ∷ keyed "GEORADIUSBYMEMBER" Kind.read 1 (pos 1) 1
    ∷ keyed "GEOSEARCH" Kind.read 1 (pos 1) 1
    ∷ keyed "GEOSEARCHSTORE" Kind.write 1 (pos 2) 1
    ∷ plain "EVAL" Kind.script
    ∷ plain "EVALSHA" Kind.script
    ∷ plain "EVAL_RO" Kind.script
    ∷ plain "EVALSHA_RO" Kind.script
    ∷ plain "SCRIPT" Kind.admin
    ∷ plain "MULTI" Kind.txn
    ∷ plain "EXEC" Kind.txn
    ∷ plain "DISCARD" Kind.txn
    ∷ keyed "WATCH" Kind.txn 1 (negsuc 0) 1
    ∷ plain "UNWATCH" Kind.txn
    ∷ plain "PUBLISH" Kind.pub_sub
    ∷ plain "SPUBLISH" Kind.pub_sub
    ∷ plain "SUBSCRIBE" Kind.pub_sub
    ∷ plain "SSUBSCRIBE" Kind.pub_sub
    ∷ plain "UNSUBSCRIBE" Kind.pub_sub
    ∷ plain "SUNSUBSCRIBE" Kind.pub_sub
    ∷ plain "PSUBSCRIBE" Kind.pub_sub
    ∷ plain "PUNSUBSCRIBE" Kind.pub_sub
    ∷ plain "PUBSUB" Kind.pub_sub
    ∷ plain "PING" Kind.connection
    ∷ plain "ECHO" Kind.connection
    ∷ plain "AUTH" Kind.connection
    ∷ plain "QUIT" Kind.connection
    ∷ plain "SELECT" Kind.connection
    ∷ plain "HELLO" Kind.connection
    ∷ plain "CLIENT" Kind.connection
    ∷ plain "RESET" Kind.connection
    ∷ plain "INFO" Kind.admin
    ∷ plain "CLUSTER" Kind.admin
    ∷ plain "COMMAND" Kind.admin
    ∷ plain "CONFIG" Kind.admin
    ∷ plain "DBSIZE" Kind.admin
    ∷ plain "FLUSHDB" Kind.admin
    ∷ plain "FLUSHALL" Kind.admin
    ∷ plain "TIME" Kind.admin
    ∷ plain "READONLY" Kind.admin
    ∷ plain "READWRITE" Kind.admin
    ∷ plain "SCAN" Kind.admin
    ∷ plain "KEYS" Kind.admin
    ∷ plain "RANDOMKEY" Kind.admin
    ∷ plain "MEMORY" Kind.admin
    ∷ plain "LATENCY" Kind.admin
    ∷ plain "ROLE" Kind.admin
    ∷ plain "LOLWUT" Kind.admin
    ∷ plain "REPLICAOF" Kind.admin
    ∷ plain "SLAVEOF" Kind.admin
    ∷ plain "WAIT" Kind.admin
    ∷ keyed "JSON.GET" Kind.read 1 (pos 1) 1
    ∷ keyed "JSON.SET" Kind.write 1 (pos 1) 1
    ∷ keyed "JSON.DEL" Kind.write 1 (pos 1) 1
    ∷ []

find : Bytes → List Meta → Option Meta
find name [] = Option.none
find name (m ∷ ms) = let rest = find name ms in if equal m.name name then Option.some m else rest

-- `table[string(name)]`, with the second result that says whether the name is there.
unfoldable pub lookup : Bytes → Option Meta
unfolding find table equal
lookup name = find name table
