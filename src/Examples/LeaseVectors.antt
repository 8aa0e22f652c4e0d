-- ===== src/Examples/LeaseVectors.antt =====
-- The storage, key and operator messages in `testdata/vectors.json`: their canonical bytes.
use sohocloud_protocol.Prelude.{◌≡◌, refl}
use sohocloud_protocol.Prelude.Int.{pos, to_u64, to_i64}
use sohocloud_protocol.Prelude.Bytes.{codes}
use sohocloud_protocol.Golang.Binary.{put_uvarint, put_uint64}
use sohocloud_protocol.Golang.Time.{unix_nano}
use sohocloud_protocol.Canon
use sohocloud_protocol.Canon.{valid_time}
use sohocloud_protocol.Examples.Hex.{hex, hex_bytes, instant}
use sohocloud_protocol.Lease.StorageLease
use sohocloud_protocol.Lease.LeaseDecline
use sohocloud_protocol.Lease.LeaseRelease
use sohocloud_protocol.Lease.ProofResponse
use sohocloud_protocol.Identity.KeyRotation
use sohocloud_protocol.Identity.KeyRevocation
use sohocloud_protocol.Operator.Transmission
use sohocloud_protocol.Operator.Rotation
use sohocloud_protocol.Operator.Conformance
use sohocloud_protocol.Lease.StorageLease.{StorageLease}
use sohocloud_protocol.Lease.LeaseDecline.{LeaseDecline}
use sohocloud_protocol.Lease.LeaseRelease.{LeaseRelease}
use sohocloud_protocol.Lease.ProofResponse.{ProofResponse}
use sohocloud_protocol.Identity.KeyRotation.{KeyRotation}
use sohocloud_protocol.Identity.KeyRevocation.{KeyRevocation}
use sohocloud_protocol.Operator.Keys.{algo_ed25519}
use sohocloud_protocol.Operator.Transmission.{OperatorTransmission}
use sohocloud_protocol.Operator.Rotation.{OperatorRotation}
use sohocloud_protocol.Operator.Conformance.{ConformanceResponse}

abbrev lease : StorageLease
lease = record {
  lease_id = codes "lease-01ab";
  node_id = codes "node-alpha";
  shard_ref = hex "000102030405060708090a0b0c0d0e0f101112131415161718191a1b1c1d1e1f";
  size_class = pos 1048576;
  fee = record { contributor_share_bps = pos 7000; platform_fee_bps = pos 3000 };
  issued_at = instant 1700000000000000123;
  expires_at = instant 1700000100000000000;
  seq = 3;
  signature =
      hex
        "9cb772e79d64e1dd9b7605dcb4a6b2fc2df1af1a05ec90b45875915eb145e74aa7942c08a77d16bd30d6a35465f5578250b8fe025176cc397bed790107635708";
}

lease_bytes :
    StorageLease.canonical_bytes lease
    ≡ hex
        "12736f686f636c6f75642f6c656173652f76300a6c656173652d303161620a6e6f64652d616c70686120000102030405060708090a0b0c0d0e0f101112131415161718191a1b1c1d1e1f00000000001000000000000000001b580000000000000bb817979cfe362a007b17979d157ea0e8000000000000000003"
unfolding StorageLease.canonical_bytes Canon.new Canon.string Canon.bytes Canon.count Canon.bool
    Canon.int64 Canon.uint64 Canon.time Canon.sum valid_time put_uvarint put_uint64 unix_nano to_u64
    to_i64 hex_bytes
lease_bytes = refl

abbrev lease_decline : LeaseDecline
lease_decline = record {
  lease_id = codes "lease-01ab";
  node_id = codes "node-alpha";
  reason = LeaseDecline.decline_local_policy;
  declined_at = instant 1699999990000000777;
  signature =
      hex
        "a50611a2971e9699ecd1a32a75089365c192e45dd2d9ebb6b8ac3066d715f1ff3d01f331945f62076d06b6a4b9c7dc5eb09a021ca51a6dae2dd45b322fdaa30c";
}

lease_decline_bytes :
    LeaseDecline.canonical_bytes lease_decline
    ≡ hex
        "1a736f686f636c6f75642f6c656173652d6465636c696e652f76300a6c656173652d303161620a6e6f64652d616c7068610c6c6f63616c5f706f6c69637917979cfbe21e1f09"
unfolding LeaseDecline.canonical_bytes Canon.new Canon.string Canon.bytes Canon.count Canon.bool
    Canon.int64 Canon.uint64 Canon.time Canon.sum valid_time put_uvarint put_uint64 unix_nano to_u64
    to_i64 hex_bytes
lease_decline_bytes = refl

abbrev lease_release : LeaseRelease
lease_release = record {
  lease_id = codes "lease-01ab";
  node_id = codes "node-alpha";
  released_at = instant 1700000050500000000;
  signature =
      hex
        "4da35d32a205017eea53126e195182d9b709320f0b353cbe6ccc22d484e88353ee1ccb20887fb2b72ad1a02c5035067e89f0910939d4a6f60cb0ca208a8e7908";
}

lease_release_bytes :
    LeaseRelease.canonical_bytes lease_release
    ≡ hex
        "1a736f686f636c6f75642f6c656173652d72656c656173652f76300a6c656173652d303161620a6e6f64652d616c70686117979d09f832d900"
unfolding LeaseRelease.canonical_bytes Canon.new Canon.string Canon.bytes Canon.count Canon.bool
    Canon.int64 Canon.uint64 Canon.time Canon.sum valid_time put_uvarint put_uint64 unix_nano to_u64
    to_i64 hex_bytes
lease_release_bytes = refl

abbrev proof : ProofResponse
proof = record {
  lease_id = codes "lease-01ab";
  node_id = codes "node-alpha";
  offset = pos 128;
  length = pos 256;
  nonce = hex "f0f1f2f3f4f5f6f7f8f9fafbfcfdfeff";
  digest = hex "93e552ed0cc680538d018ec1a94cec76ad24074018200b8267b303c8e44dfb69";
  responded_at = instant 1700000100000000000;
  signature =
      hex
        "791cfc05e0bdbe6fa3bc8522c1825da29aa86b1bfd489f8737462b9ffe7a6435eb02d1918a0b10e53451427b890c70dcccb244828d7daca57f67095753c4fc09";
}

proof_bytes :
    ProofResponse.canonical_bytes proof
    ≡ hex
        "12736f686f636c6f75642f70726f6f662f76300a6c656173652d303161620a6e6f64652d616c7068610000000000000080000000000000010010f0f1f2f3f4f5f6f7f8f9fafbfcfdfeff2093e552ed0cc680538d018ec1a94cec76ad24074018200b8267b303c8e44dfb6917979d157ea0e800"
unfolding ProofResponse.canonical_bytes Canon.new Canon.string Canon.bytes Canon.count Canon.bool
    Canon.int64 Canon.uint64 Canon.time Canon.sum valid_time put_uvarint put_uint64 unix_nano to_u64
    to_i64 hex_bytes
proof_bytes = refl

abbrev node_rotation : KeyRotation
node_rotation = record {
  node_id = codes "node-alpha";
  new_public_key = hex "7d59c5623dd40a74aa4d5a32ac645d3b3f95daeae4c22be25476dd6a486f7382";
  algo = codes "ed25519";
  rotated_at = instant 1700000050500000000;
  seq = 2;
  signature =
      hex
        "8c5fb59b87c2b5297629d09a49954e7e36e1568901ae28f9f28e6bca4fef6dae1431088b46ad6e83fd84f6c777000e6aa4c5bc1d59616c113f400383f3b8dc0b";
}

node_rotation_bytes :
    KeyRotation.canonical_bytes node_rotation
    ≡ hex
        "18736f686f636c6f75642f6e6f64652d726f746174652f76300a6e6f64652d616c706861207d59c5623dd40a74aa4d5a32ac645d3b3f95daeae4c22be25476dd6a486f7382076564323535313917979d09f832d9000000000000000002"
unfolding KeyRotation.canonical_bytes Canon.new Canon.string Canon.bytes Canon.count Canon.bool
    Canon.int64 Canon.uint64 Canon.time Canon.sum valid_time put_uvarint put_uint64 unix_nano to_u64
    to_i64 hex_bytes
node_rotation_bytes = refl

abbrev node_revocation : KeyRevocation
node_revocation = record {
  node_id = codes "node-alpha";
  revoked_public_key = hex "ca57eed30e4a7274ef4c648f56f58f880b20d2ca25725d9e5c13c83c08c09aeb";
  revoked_at = instant 1699999990000000777;
  seq = 5;
  signature =
      hex
        "5cb22fbe2595bbf1321cfd8003e6e20e7db3efe6736b52fae70616dd8c9d0429fb239ac02d9bd3d933eea6dd49ae4d791a375c3b8397933b5dde94fa9373d409";
}

node_revocation_bytes :
    KeyRevocation.canonical_bytes node_revocation
    ≡ hex
        "18736f686f636c6f75642f6e6f64652d7265766f6b652f76300a6e6f64652d616c70686120ca57eed30e4a7274ef4c648f56f58f880b20d2ca25725d9e5c13c83c08c09aeb17979cfbe21e1f090000000000000005"
unfolding KeyRevocation.canonical_bytes Canon.new Canon.string Canon.bytes Canon.count Canon.bool
    Canon.int64 Canon.uint64 Canon.time Canon.sum valid_time put_uvarint put_uint64 unix_nano to_u64
    to_i64 hex_bytes
node_revocation_bytes = refl

abbrev transmission : OperatorTransmission
transmission = record {
  operator_id = codes "cloudy";
  ts_unix_nano = pos 1700000000000000123;
  nonce = hex "5a5a5a5a5a5a5a5a5a5a5a5a5a5a5a5a";
  seq = 7;
  algo = algo_ed25519;
  idx0 = pos 2;
  idx1 = pos 5;
  sig0 =
      hex
        "0cec1594d74f88976f82201338c676e1c6ac2241bf52dc2bb5a512570a72538062070183eb0cd5d0529eebc9415598a19db7e63d9058112d9874f5bde0db010b";
  sig1 =
      hex
        "2051ff43f22fc9fcaeabea1b3c1237f387a841aec9f9a71feb331c6326eee0afae9887bceb8d431cf5e4a26ecc3639652e96bed2d25d0334525bff5a12fb9b07";
}

transmission_bytes :
    Transmission.canonical_bytes transmission
    ≡ hex
        "15736f686f636c6f75642f6f70657261746f722f763006636c6f75647917979cfe362a007b105a5a5a5a5a5a5a5a5a5a5a5a5a5a5a5a0000000000000007076564323535313900000000000000020000000000000005"
unfolding Transmission.canonical_bytes Canon.new Canon.string Canon.bytes Canon.count Canon.bool
    Canon.int64 Canon.uint64 Canon.time Canon.sum valid_time put_uvarint put_uint64 unix_nano to_u64
    to_i64 hex_bytes
transmission_bytes = refl

abbrev rotation : OperatorRotation
rotation = record {
  operator_id = codes "cloudy";
  key_index = pos 4;
  new_public_key = hex "c853ad0f0cd2b619aea92ceec4fd56a24d6499d584ce79257e45cfd8139b60a7";
  algo = algo_ed25519;
  ts_unix_nano = pos 1700000050500000000;
  nonce = hex "33333333333333333333333333333333";
  seq = 9;
  idx0 = pos 0;
  idx1 = pos 1;
  sig0 =
      hex
        "3d4f32b2790e4915acdb80ea5eec1a91c0d4c245a8d16d007b9657a0b0eddf4c26680dc498b107d3a2ca1ca01e09187fe72d444f5d120a89c61a8f61ac75240c";
  sig1 =
      hex
        "bc831d12fdcd51c15fa4c1cc73f82ab0bb2973a41704c76db6d7418ee5eeacd519f370aa655f5b35ab4e594793c6897a4eb558b2ac43ef6808955cc3d9aebc0f";
}

rotation_bytes :
    Rotation.canonical_bytes rotation
    ≡ hex
        "1c736f686f636c6f75642f6f70657261746f722d726f746174652f763006636c6f756479000000000000000420c853ad0f0cd2b619aea92ceec4fd56a24d6499d584ce79257e45cfd8139b60a7076564323535313917979d09f832d9001033333333333333333333333333333333000000000000000900000000000000000000000000000001"
unfolding Rotation.canonical_bytes Canon.new Canon.string Canon.bytes Canon.count Canon.bool
    Canon.int64 Canon.uint64 Canon.time Canon.sum valid_time put_uvarint put_uint64 unix_nano to_u64
    to_i64 hex_bytes
rotation_bytes = refl

abbrev response : ConformanceResponse
response = record {
  operator_id = codes "cloudy";
  challenge = hex "1111111111111111111111111111111111111111111111111111111111111111";
  algo = algo_ed25519;
  idx0 = pos 2;
  idx1 = pos 3;
  sig0 =
      hex
        "56216226b75920238a0cde89416ed3f51ba6346ca8d13f20d0c39d5bf4d77471083b96ccc72c9b876804bc71abf0baee22b722856f3ab8025ec0cc3ee366430e";
  sig1 =
      hex
        "af6f0f5e60ef8815485d256a3fcb6e1af7ebe4c5736feec0db8aea139acb603294f8f813e9e49c0b37173708883ed5aa0af695a1800be35085e0eb4dc6dbd100";
}

response_bytes :
    Conformance.canonical_bytes response
    ≡ hex
        "21736f686f636c6f75642f6f70657261746f722d636f6e666f726d616e63652f763006636c6f756479201111111111111111111111111111111111111111111111111111111111111111076564323535313900000000000000020000000000000003"
unfolding Conformance.canonical_bytes Canon.new Canon.string Canon.bytes Canon.count Canon.bool
    Canon.int64 Canon.uint64 Canon.time Canon.sum valid_time put_uvarint put_uint64 unix_nano to_u64
    to_i64 hex_bytes
response_bytes = refl
