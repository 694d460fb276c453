-- ===== src/Decoder.antt =====
-- tools/decode_panicdump.py: the offline decoder, on the exported text and on the image.
pub mod Strings
pub mod Digits
pub mod Frame
pub mod Parse
pub mod Pipeline
pub mod Tags
pub mod Cfsr
pub mod Report
pub mod Dicts
pub mod Json
pub mod Main
