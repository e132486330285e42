-- ===== src/Lib.antt =====
-- Replicated secret sharing over Z/2^k for three parties, and opening for five.
--
-- The program runs protocols between parties that hold shares of secret words. With three
-- parties a value is the sum of three shares, and party 1 holds the shares 2 and 3, party 2 the
-- shares 3 and 1, party 3 the shares 1 and 2. Every protocol here is a function of what all
-- parties hold before it (`World`, by party ID), since they run in step: what one sends is what
-- the table of the other says that it receives.
--
--   Base       names, congruences and bits that the other parts share
--   Word       include_30/setringsize.h, include_60/setringsize.h, include/mpc_util.h: `Lint`
--              with `w` bits, its operators, the masks SHIFT, arrays and memcpy of low bytes
--   Net        src/connection/NodeNetwork.cpp: the tables map_3pc, getRounds, and the messages of
--              sendDataToPeer, getDataFromPeer, SendAndGetDataFromPeer and multicastToPeers
--   Prg        src/connection/NodeNetwork.cpp: the keys of prg_setup, and prg_getrandom;
--              Prg.Container is prg_getrandom for one key, with its container of 16 bytes
--   Share      when shares stand for a value, by sum (IsShared) or by exclusive or (IsXorShared)
--   Open       src/protocols_basic/Open.cpp: Rss_Open, Rss_Open_Bitwise, Rss_Open_Byte
--   Mult       src/protocols_basic/Mult.cpp: Rss_Mult, Rss_Mult_fixed_b, Rss_Mult_Bitwise,
--              Rss_Mult_Byte, Rss_MultPub
--   MatMult    src/protocols_basic/matMult.cpp: products of matrices
--   RandBit    src/protocols_rand/randBit.cpp: Rss_RandBit and rss_sqrt_inv
--   BitLt      src/protocols_composite/bitLT.cpp: Rss_BitLT, Rss_CarryOut, new_Rss_CarryOutAux,
--              the recursive Rss_CarryOutAux and OptimalBuffer, with the tables EVEN and ODD
--              of NodeNetwork
--   B2a        src/protocols_composite/b2a.cpp: Rss_b2a
--   BitAdd     src/protocols_composite/bitAdd.cpp: Rss_CircleOpL with CarryBuffer2, both forms of
--              Rss_BitAdd, and Rss_nBitAdd
--   EdaBit     src/protocols_rand/edaBit.cpp and src/protocols_composite/bitAddTrunc.cpp:
--              Rss_edaBit and Rss_edaBit_trunc with the procedures that they call; EdaBit.Client
--              puts them below the comparisons and the truncation
--   Convert    src/protocols_composite/convert.cpp: new_Rss_Convert and Rss_Convert
--   Msb        src/protocols_composite/MSB.cpp: new_Rss_MSB and new_Rss_MSB_time
--   Lt         src/protocols_composite/LT.cpp: larger and smaller values
--   Trunc      src/protocols_composite/Trunc.cpp: division by powers of two
--   Relu       src/protocols_ml/neural_ops.cpp: the rectifiers
--   Bias       src/protocols_ml/neural_ops.cpp: biases and zero points
--   Pool       src/protocols_ml/neural_ops.cpp: MaxPool
--   Conv       src/protocols_ml/neural_ops.cpp: im2col
--   Pad        src/protocols_ml/neural_ops.cpp: pad_original
--   Average    src/protocols_ml/neural_ops.cpp: Rss_avg_pool
--   Five       src/connection/NodeNetwork.cpp, src/protocols_basic/Open_5pc.cpp and
--              src/protocols_basic/Mult_5pc.cpp: the tables of five parties, Rss_Open_mp,
--              Rss_Open_Bitwise_mp and the local products of Rss_Mult_mp
--   Checks     concrete inputs
--
-- A word is a natural number, and each operator reduces modulo 2^w, with w = 32 or w = 64.
-- `IsRing w k` names the ring sizes that the program supports. Loops over an array are `for_each`
-- with the body as a function of the index; the loop of rss_sqrt_inv recurses on the rounds that
-- are left, and the loop over messages on the count that getRounds returns. The loop of
-- new_Rss_CarryOutAux has fuel `ring_size`, more than the rounds it takes; the recursive form takes
-- any fuel `n` with `r_size` at most 2^n. `ceil_log2` has fuel `r_size`; each step halves.
--
-- Parameters stand for what is outside: the bytes of a key (`Streams`), the rounds of AES
-- (`Prg.Container`) and what memory holds that the source does not clear. The truncation, the most
-- significant bit and the comparisons take the protocols below them as interfaces
-- (`Trunc.IsEdaBit`, `Msb.IsEdaBit`, `Lt.IsMsb`), which EdaBit and Msb fill.
--
-- Sizes and indices of arrays are natural numbers, where the source has 32 bits (`uint`, and `int`
-- in the loop of prg_getrandom): the model stands for calls whose counts of elements and bytes stay
-- below 2^31, and for strides above 0.
--
-- Lt, Relu and Pool take Rss_MSB and new_Rss_MSB as parameters. Msb models new_Rss_MSB; Rss_MSB,
-- which the flag 0 of ReLU and MaxPool leads to, is not modelled: with three parties it deals out
-- inconsistent shares of 1.
--
-- Not modelled: sockets, encryption of the channels, timers and traffic counters; the other
-- protocols of five parties and those of seven; Rss_MSB; the overload of Rss_edaBit with
-- bit_length; Rss_CircleOpL_Lint, which nothing calls; the layers and benchmarks. Rss_dw_matrixmul
-- writes past its arrays, and EQZ.cpp is unfinished. The bytes of a key are any bytes: how they are
-- distributed is not part of the model.
pub mod Base
pub mod Word
pub mod Net
pub mod Prg
pub mod Share
pub mod Open
pub mod Mult
pub mod RandBit
pub mod MatMult
pub mod Lt
pub mod Trunc
pub mod Relu
pub mod Bias
pub mod Pool
pub mod BitAdd
pub mod EdaBit
pub mod Five
pub mod Conv
pub mod Convert
pub mod Pad
pub mod Average
pub mod B2a
pub mod BitLt
pub mod Msb
pub mod Checks
