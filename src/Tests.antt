-- ===== src/Tests.antt =====
-- The theorems at concrete inputs, and runs of the definitions.
mod Memory
mod Relocs
mod Space
mod Bridge
mod Elf
mod Align
mod Guest
mod ElfVm
mod Load
mod Start
mod Contents
mod Jni
mod ErrorText
