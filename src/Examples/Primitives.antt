-- ===== src/Examples/Primitives.antt =====
-- The primitive values of `testdata/vectors.json`.
use sohocloud_protocol.Prelude.{◌≡◌, refl, true, false, none, []}
use sohocloud_protocol.Prelude.Int.{pos, negsuc, to_u64, to_i64}
use sohocloud_protocol.Golang.Binary.{put_uvarint, put_uint64}
use sohocloud_protocol.Golang.Time.{unix_nano}
use sohocloud_protocol.Canon
use sohocloud_protocol.Canon.{Buffer, valid_time}
use sohocloud_protocol.Examples.Hex.{hex, hex_bytes, instant}

abbrev empty : Buffer
empty = record { b = []; err = none }

uvarint_vectors :
    ((Canon.count empty (pos 0)).b ≡ hex "00")
    × ((Canon.count empty (pos 1)).b ≡ hex "01")
    × ((Canon.count empty (pos 127)).b ≡ hex "7f")
    × ((Canon.count empty (pos 128)).b ≡ hex "8001")
    × ((Canon.count empty (pos 255)).b ≡ hex "ff01")
    × ((Canon.count empty (pos 256)).b ≡ hex "8002")
    × ((Canon.count empty (pos 300)).b ≡ hex "ac02")
    × ((Canon.count empty (pos 16384)).b ≡ hex "808001")
    × ((Canon.count empty (pos 1073741824)).b ≡ hex "8080808004")
unfolding Canon.new Canon.string Canon.bytes Canon.count Canon.bool Canon.int64 Canon.uint64
    Canon.time Canon.sum valid_time put_uvarint put_uint64 unix_nano to_u64 to_i64 hex_bytes
uvarint_vectors = (refl, refl, refl, refl, refl, refl, refl, refl, refl)

int64_vectors :
    ((Canon.int64 empty (pos 0)).b ≡ hex "0000000000000000")
    × ((Canon.int64 empty (pos 1)).b ≡ hex "0000000000000001")
    × ((Canon.int64 empty (negsuc 0)).b ≡ hex "ffffffffffffffff")
    × ((Canon.int64 empty (pos 2)).b ≡ hex "0000000000000002")
    × ((Canon.int64 empty (negsuc 1)).b ≡ hex "fffffffffffffffe")
    × ((Canon.int64 empty (pos 9223372036854775807)).b ≡ hex "7fffffffffffffff")
    × ((Canon.int64 empty (negsuc 9223372036854775807)).b ≡ hex "8000000000000000")
unfolding Canon.new Canon.string Canon.bytes Canon.count Canon.bool Canon.int64 Canon.uint64
    Canon.time Canon.sum valid_time put_uvarint put_uint64 unix_nano to_u64 to_i64 hex_bytes
int64_vectors = (refl, refl, refl, refl, refl, refl, refl)

uint64_vectors :
    ((Canon.uint64 empty 0).b ≡ hex "0000000000000000")
    × ((Canon.uint64 empty 1).b ≡ hex "0000000000000001")
    × ((Canon.uint64 empty 18446744073709551615).b ≡ hex "ffffffffffffffff")
unfolding Canon.new Canon.string Canon.bytes Canon.count Canon.bool Canon.int64 Canon.uint64
    Canon.time Canon.sum valid_time put_uvarint put_uint64 unix_nano to_u64 to_i64 hex_bytes
uint64_vectors = (refl, refl, refl)

bool_vectors : ((Canon.bool empty false).b ≡ hex "00") × ((Canon.bool empty true).b ≡ hex "01")
unfolding Canon.new Canon.string Canon.bytes Canon.count Canon.bool Canon.int64 Canon.uint64
    Canon.time Canon.sum valid_time put_uvarint put_uint64 unix_nano to_u64 to_i64 hex_bytes
bool_vectors = (refl, refl)

string_vectors :
    ((Canon.string empty (hex "")).b ≡ hex "00")
    × ((Canon.string empty (hex "636166c3a920e2809420e697a5e69cace8aa9e20f09f9a80")).b
        ≡ hex "18636166c3a920e2809420e697a5e69cace8aa9e20f09f9a80")
unfolding Canon.new Canon.string Canon.bytes Canon.count Canon.bool Canon.int64 Canon.uint64
    Canon.time Canon.sum valid_time put_uvarint put_uint64 unix_nano to_u64 to_i64 hex_bytes
string_vectors = (refl, refl)

time_vectors :
    ((Canon.time empty (instant 0)).b ≡ hex "0000000000000000")
    × ((Canon.time empty (instant 1700000000000000123)).b ≡ hex "17979cfe362a007b")
unfolding Canon.new Canon.string Canon.bytes Canon.count Canon.bool Canon.int64 Canon.uint64
    Canon.time Canon.sum valid_time put_uvarint put_uint64 unix_nano to_u64 to_i64 hex_bytes
time_vectors = (refl, refl)
